-- ===== src/Perm.antt =====
-- Permission masks, the enumerations and the role presets of internal/biz/model.go. A mask is the
-- bit pattern of the source's int64; `a &^ b` is `and_not`. Each declared constant of an
-- enumeration is a constructor, other int32 values are not modelled.
mod Roles
mod Lifecycles
pub mod Laws
pub mod Catalog
pub mod Authority
pub mod Tests
unfoldable pub use Roles.*
unfoldable pub use Lifecycles.*
use nagisa.Prelude.{
  ℕ, ◌-◌, ◌^◌, Bool, false, not, ◌||◌, List, [], ◌∷◌, ltb, ◌==◌, if◌then◌else◌, keep, bit_and,
  bit_or,
}
use nagisa.Prelude.Bits.{and_not}
use nagisa.Prelude.Int.{ℤ, pos, negsuc}

-- Every permission that is set in `want` is set in `m`.
unfoldable pub has : PermMask → PermMask → Bool
has m want = bit_and m want == want

unfoldable pub has_any : PermMask → PermMask → Bool
has_any m want = not (bit_and m want == 0)

abbrev pub add : PermMask → PermMask → PermMask
add m other = bit_or m other

abbrev pub remove : PermMask → PermMask → PermMask
remove m other = and_not m other

abbrev pub intersect : PermMask → PermMask → PermMask
intersect m other = bit_and m other

abbrev pub is_zero : PermMask → Bool
is_zero m = m == 0

-- The bit of an enum value, which is an int32 and may be out of range.
unfoldable pub perm_bit : ℤ → PermMask
perm_bit (pos p) = if (p == 0) || ltb 63 p then 0 else 2 ^ (p - 1)
perm_bit (negsuc p) = 0

mask_loop : PermMask → List ℤ → PermMask
mask_loop mask [] = mask
mask_loop mask (p ∷ ps) = mask_loop (bit_or mask (perm_bit p)) ps

unfoldable pub perm_mask_from : List ℤ → PermMask
unfolding mask_loop
perm_mask_from perms = mask_loop perm_none perms

unfoldable pub perm_mask_from_raw : ℕ → PermMask
perm_mask_from_raw raw = bit_and raw perm_all

-- The enum values of the catalogue, in its order.
abbrev pub permission_catalog : List ℤ
permission_catalog =
    pos 1
    ∷ pos 2
    ∷ pos 3
    ∷ pos 4
    ∷ pos 5
    ∷ pos 6
    ∷ pos 7
    ∷ pos 8
    ∷ pos 9
    ∷ pos 10
    ∷ pos 11
    ∷ pos 12
    ∷ []

values_loop : PermMask → List ℤ → List ℤ
values_loop m [] = []
values_loop m (p ∷ ps) =
    let rest = values_loop m ps in if has m (perm_bit p) then p ∷ rest else rest

unfoldable pub permission_values : PermMask → List ℤ
unfolding values_loop
permission_values m = values_loop m permission_catalog
