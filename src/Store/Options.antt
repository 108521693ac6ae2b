-- ===== src/Store/Options.antt =====
-- internal/biz/store.go: the options of a list query. A standard filter and an order are what the
-- AIP library makes of the request: a test of rows and a reordering.
use nagisa.Prelude.{Bool, true, List, [], ◌∷◌, if◌then◌else◌, take, drop}
use nagisa.Prelude.Int.{ℤ, pos, ltb_ℤ, leb_ℤ, pos_part}

module _ {ℓ} (A : Type ℓ) where
  pub data ListOption : Type ℓ where
    list_filter : (A → Bool) → ListOption
    list_order_by : (List A → List A) → ListOption
    list_offset : ℤ → ListOption
    list_limit : ℤ → ListOption

  pub record ListOptions : Type ℓ where
    pub filter : A → Bool
    pub order_by : List A → List A
    pub offset : ℤ
    pub limit : ℤ

module _ {ℓ} {A : Type ℓ} where
  apply_option : ListOption A → ListOptions A → ListOptions A
  apply_option (ListOption.list_filter f) o = record o { filter = f }
  apply_option (ListOption.list_order_by g) o = record o { order_by = g }
  apply_option (ListOption.list_offset n) o = record o { offset = n }
  apply_option (ListOption.list_limit n) o = record o { limit = n }

  options_loop : List (ListOption A) → ListOptions A → ListOptions A
  unfolding apply_option
  options_loop [] o = o
  options_loop (opt ∷ opts) o = options_loop opts (apply_option opt o)

  clamp_options : ℤ → ListOptions A → ListOptions A
  clamp_options default_limit o = record o {
    limit = if leb_ℤ o.limit (pos 0) then default_limit else o.limit;
    offset = if ltb_ℤ o.offset (pos 0) then pos 0 else o.offset;
  }

  unfoldable pub resolve_list_options : ℤ → List (ListOption A) → ListOptions A
  unfolding options_loop clamp_options
  resolve_list_options default_limit opts = clamp_options default_limit (
      options_loop opts (record {
        filter = λ _. true;
        order_by = λ rows. rows;
        offset = pos 0;
        limit = default_limit;
      }))

  -- `Offset` and `Limit` of a query.
  abbrev pub page : ListOptions A → List A → List A
  page o rows = take (pos_part o.limit) (drop (pos_part o.offset) rows)
