-- ===== src/Audit/Trail.antt =====
-- internal/biz/audit.go and internal/data/audit.go: recording, reading and summing up the trail.
use nagisa.Prelude.{
  ℕ, ◌+◌, ◌-◌, ◌*◌, ◌^◌, Bool, true, not, ◌&&◌, Option, none, some, List, [], ◌∷◌, ◌++◌, Text,
  text_eq, has_prefix, is_empty, keep, take, ordered_by, length, leb, ltb, ◌==◌, if◌then◌else◌,
}
use nagisa.Prelude.Int.{pos}
use nagisa.Errors.{Error, Result, ok, err}
use nagisa.Perm.{perm_audit_read}
use nagisa.Access.{Uuid, nil_id, Caller, is_authenticated, caller_has, require}
use nagisa.Store.{Platform, ListOption, resolve_list_options, page}

pub record AuditLog : Type 0 where
  pub id : Uuid
  pub actor_id : Uuid
  pub actor_name : Text
  pub action : Text
  pub target_type : Text
  pub target_id : Text
  pub target_name : Text
  pub success : Bool
  pub error_reason : Text
  pub detail : Option (List (Text × Text))
  pub ip : Text
  pub user_agent : Text
  pub request_id : Text
  pub created_at : ℕ

pub record AuditCount : Type 0 where
  pub key : Text
  pub label : Text
  pub count : ℕ

pub record AuditSummary : Type 0 where
  pub from : ℕ
  pub to : ℕ
  pub total : ℕ
  pub failure_count : ℕ
  pub by_action : List AuditCount
  pub by_actor : List AuditCount

-- The table, and the count of identifiers minted.
pub record Trail : Type 0 where
  pub logs : List AuditLog
  pub next : ℕ

-- `auditWindow`.
unfoldable pub audit_window : ℕ → ℕ → Text → AuditLog → Bool
audit_window from to prefix e =
    (if from == 0 then true else leb from e.created_at)
    && (if to == 0 then true else leb e.created_at to)
    && (if is_empty prefix then true else has_prefix e.action prefix)

-- One more for the group of a key, of which a new one has the label.
unfoldable pub add_count : Text → Text → List AuditCount → List AuditCount
add_count key label [] = record { key = key; label = label; count = 1 } ∷ []
add_count key label (g ∷ rest) =
    let later = add_count key label rest in
    if text_eq g.key key && text_eq g.label label
    then record g { count = g.count + 1 } ∷ rest
    else g ∷ later

unfoldable pub group_by : (AuditLog → Text × Text) → List AuditLog → List AuditCount
group_by key [] = []
group_by key (e ∷ rest) = add_count (key e).0 (key e).1 (group_by key rest)

-- `less` is `strings.Compare a b < 0`.
module _ (less : Text → Text → Bool) where
  abbrev ranks_before : AuditCount → AuditCount → Bool
  ranks_before a b = if a.count == b.count then not (less b.key a.key) else ltb b.count a.count

  unfoldable pub rank_one : AuditCount → List AuditCount → List AuditCount
  rank_one a [] = a ∷ []
  rank_one a (b ∷ rest) =
      let later = rank_one a rest in if ranks_before a b then a ∷ b ∷ rest else b ∷ later

  abbrev ranked : List AuditCount → List AuditCount
  ranked [] = []
  ranked (a ∷ rest) = rank_one a (ranked rest)

  -- `rankAuditCounts`.
  unfoldable pub rank_audit_counts : List AuditCount → ℕ → List AuditCount
  rank_audit_counts counts limit = if limit == 0 then ranked counts else take limit (ranked counts)

  module _ (platform : Platform) (action_label : Text → Text) where
    unfoldable pub audit_by_action : ℕ → ℕ → Text → ℕ → Trail → List AuditCount
    audit_by_action from to prefix limit t =
        rank_audit_counts
          (group_by (λ e. (e.action, action_label e.action))
            (keep (audit_window from to prefix) t.logs))
          limit

    abbrev actor_label : AuditLog → Text
    actor_label e = if is_empty e.actor_name then platform.uuid_text e.actor_id else e.actor_name

    unfoldable pub audit_by_actor : ℕ → ℕ → Text → ℕ → Trail → List AuditCount
    audit_by_actor from to prefix limit t =
        rank_audit_counts
          (group_by (λ e. (platform.uuid_text e.actor_id, actor_label e))
            (keep (audit_window from to prefix) t.logs))
          limit

    unfoldable pub count_audit_failures : ℕ → ℕ → Text → Trail → ℕ
    count_audit_failures from to prefix t =
        length (keep (λ e. audit_window from to prefix e && not e.success) t.logs)

    abbrev sum_counts : List AuditCount → ℕ
    sum_counts [] = 0
    sum_counts (g ∷ rest) = g.count + sum_counts rest

    abbrev seven_days : ℕ
    seven_days = 7 * 86_400 * 10 ^ 9

    unfoldable pub summary_of : ℕ → ℕ → Text → Trail → AuditSummary
    summary_of from to prefix t = record {
      from = from;
      to = to;
      total = sum_counts (audit_by_action from to prefix 50 t);
      failure_count = count_audit_failures from to prefix t;
      by_action = audit_by_action from to prefix 50 t;
      by_actor = audit_by_actor from to prefix 20 t;
    }

    -- `Summary`, without the counts by day.
    unfoldable pub audit_summary : Caller → ℕ → ℕ → Text → ℕ → Trail → Result AuditSummary
    audit_summary c from to prefix now t =
        let last = if to == 0 then now else to in
        let first = if from == 0 then last - seven_days else from in
        elim (require c perm_audit_read) [
          | some e ↦ err e
          | none ↦ ok (summary_of first last prefix t)
        ]

module _ (platform : Platform) where
  -- The identifier and the instant that an entry is missing.
  unfoldable pub stamped : ℕ → ℕ → AuditLog → AuditLog
  stamped now next e = record e {
    id = if e.id == nil_id then platform.minted next else e.id;
    created_at = if e.created_at == 0 then now else e.created_at;
  }

  -- `Record`.
  unfoldable pub record_entries : ℕ → List AuditLog → Trail → Trail
  record_entries now [] t = t
  record_entries now (e ∷ rest) t = record_entries now rest (record {
    logs = t.logs ++ stamped now t.next e ∷ [];
    next = if e.id == nil_id then t.next + 1 else t.next;
  })

unfoldable pub list_audit_logs : List (ListOption AuditLog) → Trail → List AuditLog
list_audit_logs opts t =
    let o = resolve_list_options (pos 100) opts in
    page o (o.order_by (ordered_by (λ e. e.created_at) (keep o.filter t.logs)))

unfoldable pub count_audit_logs : List (ListOption AuditLog) → Trail → ℕ
count_audit_logs opts t = length (keep (resolve_list_options (pos 100) opts).filter t.logs)

-- `List`.
unfoldable pub audit_list : Caller → List (ListOption AuditLog) → Trail → Result (List AuditLog × ℕ)
audit_list c opts t =
    if is_authenticated c
    then ok (list_audit_logs opts t, count_audit_logs opts t)
    else err Error.unauthenticated

unfoldable pub find_log : Uuid → List AuditLog → Option AuditLog
find_log id [] = none
find_log id (e ∷ rest) = let later = find_log id rest in if e.id == id then some e else later

abbrev pub shown : Caller → Option AuditLog → Result AuditLog
shown c none = err Error.not_found
shown c (some e) =
    if not (caller_has c perm_audit_read) && not (e.actor_id == c.user_id)
    then err Error.permission_denied
    else ok e

-- `Get`.
unfoldable pub audit_get : Caller → Uuid → Trail → Result AuditLog
audit_get c id t =
    if is_authenticated c then shown c (find_log id t.logs) else err Error.unauthenticated

-- `PurgeAuditLogs`.
unfoldable pub purge_audit_logs : ℕ → Trail → ℕ × Trail
purge_audit_logs before t = (
  length (keep (λ e. ltb e.created_at before) t.logs),
  record t { logs = keep (λ e. not (ltb e.created_at before)) t.logs },
)
