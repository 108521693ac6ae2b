-- ===== src/Audit/Readers.antt =====
-- `Get` of internal/biz/audit.go: who reads an entry of the trail.
use nagisa.Prelude.{
  ◌≡◌, refl, sym, ◌∙◌, ap, Bool, true, false, not, ◌&&◌, ◌||◌, Option, none, some, if◌then◌else◌,
  ◌==◌, Bool-cases, inl, inr,
}
use nagisa.Errors.{Error, Result, ok, err}
use nagisa.Perm.{perm_audit_read}
use nagisa.Access.{Uuid, Caller, is_authenticated, caller_has}
use nagisa.Audit.Trail.{AuditLog, Trail, find_log, audit_get, shown}

ok_injective : (a b : AuditLog) → ◌≡◌ {A = Result AuditLog} (ok a) (ok b) → a ≡ b
ok_injective a b h = ap value h
  where
    value : Result AuditLog → AuditLog
    value (ok e) = e
    value (err x) = a

shown_ok :
    (c : Caller) (o : Option AuditLog) (e : AuditLog)
    → shown c o ≡ ok e
    → (o ≡ some e) × ((caller_has c perm_audit_read || (e.actor_id == c.user_id)) ≡ true)
shown_ok c none e h = cc
shown_ok c (some f) e h = may (caller_has c perm_audit_read) (f.actor_id == c.user_id) refl refl h
  where
    may :
        (reads own : Bool)
        → caller_has c perm_audit_read ≡ reads
        → (f.actor_id == c.user_id) ≡ own
        → (if not reads && not own then err Error.permission_denied else ok f) ≡ ok e
        → (some f ≡ some e) × ((caller_has c perm_audit_read || (e.actor_id == c.user_id)) ≡ true)
    may true own at_reads at_own g = (ap some (ok_injective f e g), rw at_reads refl)
    may false true at_reads at_own g =
        let same = ok_injective f e g in
        (
          ap some same,
          ap (λ b. b || (e.actor_id == c.user_id)) at_reads
              ∙ ap (λ x. x.actor_id == c.user_id) (sym same)
              ∙ at_own,
        )
    may false false at_reads at_own g = cc

-- An entry is read through `Get` only by a signed-in caller who may read the trail or is the actor, and
-- it is the entry that is stored under the identifier.
pub audit_get_ok :
    (c : Caller) (id : Uuid) (t : Trail) (e : AuditLog)
    → audit_get c id t ≡ ok e
    → (is_authenticated c ≡ true)
      × (find_log id t.logs ≡ some e)
      × ((caller_has c perm_audit_read || (e.actor_id == c.user_id)) ≡ true)
unfolding audit_get
audit_get_ok c id t e h = elim (Bool-cases (is_authenticated c)) [
  | inl present ↦
      let (found, may) = shown_ok c (find_log id t.logs) e (rw (present, audit_get) at h) in
      (present, found, may)
  | inr absent ↦ let lost = rw (absent, audit_get) at h in cc
]
