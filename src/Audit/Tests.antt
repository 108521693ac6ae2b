-- ===== src/Audit/Tests.antt =====
-- The trail on two entries.
use nagisa.Prelude.{◌≡◌, refl, true, false, ◌||◌, none, some, [], ◌∷◌, codes, map, text_eq, ◌==◌}
use nagisa.Errors.{ok}
use nagisa.Perm.{perm_audit_read}
use nagisa.Access.{is_authenticated, caller_has}
use nagisa.Access.Sample.{member}
use nagisa.Tree.Sample.{sample_platform}
use nagisa.Audit.Trail.{AuditLog, Trail, audit_get, record_entries, find_log, audit_by_action}
use nagisa.Audit.Readers.{audit_get_ok}

abbrev entry : AuditLog
entry = record {
  id = 0;
  actor_id = 7;
  actor_name = codes "u";
  action = codes "auth.login";
  target_type = [];
  target_id = [];
  target_name = [];
  success = true;
  error_reason = [];
  detail = none;
  ip = [];
  user_agent = [];
  request_id = [];
  created_at = 0;
}

abbrev empty_trail : Trail
empty_trail = record { logs = []; next = 0 }

abbrev two_entries : Trail
two_entries = record_entries sample_platform 5 (entry ∷ entry ∷ []) empty_trail

stamped_ids : map (λ e. e.id) two_entries.logs ≡ 100 ∷ 101 ∷ []
unfolding record_entries nagisa.Audit.Trail.stamped
stamped_ids = refl

action_counts :
    map
      (λ g. g.count)
      (audit_by_action (λ a b. false) sample_platform (λ s. s) 0 0 [] 50 two_entries)
    ≡ 2 ∷ []
unfolding audit_by_action nagisa.Audit.Trail.rank_audit_counts nagisa.Audit.Trail.group_by
    record_entries nagisa.Audit.Trail.audit_window nagisa.Audit.Trail.add_count text_eq
    nagisa.Audit.Trail.stamped nagisa.Audit.Trail.rank_one
action_counts = refl

abbrev own_trail : Trail
own_trail = record { logs = record entry { id = 1 } ∷ []; next = 0 }

own_read : audit_get member 1 own_trail ≡ ok (record entry { id = 1 })
unfolding audit_get is_authenticated find_log caller_has
own_read = refl

audit_get_ok_example :
    (is_authenticated member ≡ true)
    × (find_log 1 own_trail.logs ≡ some (record entry { id = 1 }))
    × ((caller_has member perm_audit_read || (7 == member.user_id)) ≡ true)
audit_get_ok_example = audit_get_ok member 1 own_trail (record entry { id = 1 }) own_read
