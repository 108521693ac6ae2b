-- ===== src/Access/Tests.antt =====
-- The access rules on a small tree.
use nagisa.Prelude.{
  ℕ, ◌≡◌, refl, Bool, true, false, none, some, List, [], ◌∷◌, ◌++◌, Text, codes, arith, all, any,
  map, ◌||◌, ◌&&◌, not, leb, ◌==◌, is_some, if◌then◌else◌,
}
use nagisa.Prelude.Bits.{test_bit, and_not}
use nagisa.Perm.{has, intersect, perm_node_scope, visibility_value}
use nagisa.Access.{
  is_super_admin, is_authenticated, evaluate_node_access, ceiling, or_anonymous,
  effective_visibility, visibility_grant, find_lock, or_private, acl_matches,
}
use nagisa.Access.Digits.{evaluate_digit, view_of, is_allowed, is_denied}
use nagisa.Access.Bounds.{evaluate_bounded}
use nagisa.Access.Visible.{is_open, effective_visibility_least, private_needs_entry}
use nagisa.Access.Lock.{stops, locked_iff, locked_by_outermost, IsFirstStop}
use nagisa.Access.Unlocking.{with_unlocked, unlock_keeps_perms}
use nagisa.Access.Sample.{
  sample_text, member, folder_a, folder_b, file_c, private_file, no_entries, some_entries,
}

-- The deny entry on the folder takes the download away, which the visibility gives.
download_denied : (view_of sample_text member file_c (folder_a ∷ []) some_entries).perms ≡ 9
unfolding evaluate_node_access is_super_admin and_not acl_matches ceiling visibility_grant
    nagisa.Prelude.text_eq
download_denied = refl

not_admin : is_super_admin member ≡ false
unfolding is_super_admin
not_admin = refl

not_owner : (is_authenticated member && (file_c.owner_id == member.user_id)) ≡ false
not_owner = ground arith

evaluate_digit_example :
    test_bit (view_of sample_text member file_c (folder_a ∷ []) some_entries).perms 3 ≡ (
      ((((test_bit (visibility_grant member (effective_visibility file_c (folder_a ∷ []))) 3
              || is_allowed sample_text member 3 some_entries file_c (folder_a ∷ []))
            && not (is_denied sample_text member 3 some_entries file_c (folder_a ∷ [])))
          && test_bit perm_node_scope 3)
        && test_bit (ceiling member) 3)
      && (not (is_some (find_lock member file_c (folder_a ∷ []))) || (0 == 3)))
evaluate_digit_example =
    evaluate_digit sample_text member file_c (folder_a ∷ []) some_entries 3 not_admin not_owner

evaluate_bounded_example :
    has
      (intersect perm_node_scope (ceiling (or_anonymous (some member))))
      (evaluate_node_access sample_text (record {
        caller = some member;
        node = some file_c;
        ancestors = folder_a ∷ [];
        acl_by_node = some_entries;
      })).perms
    ≡ true
evaluate_bounded_example = evaluate_bounded sample_text (record {
  caller = some member;
  node = some file_c;
  ancestors = folder_a ∷ [];
  acl_by_node = some_entries;
})

effective_visibility_least_example :
    leb 2 (visibility_value (effective_visibility private_file (folder_a ∷ [])))
    ≡ all (is_open 2) (private_file ∷ folder_a ∷ [])
effective_visibility_least_example = effective_visibility_least 2 private_file (folder_a ∷ [])

hidden : all (is_open 2) (private_file ∷ folder_a ∷ []) ≡ false
unfolding or_private
hidden = refl

private_needs_entry_example :
    test_bit (view_of sample_text member private_file (folder_a ∷ []) no_entries).perms 0 ≡ false
private_needs_entry_example =
    private_needs_entry sample_text member private_file (folder_a ∷ []) no_entries 0 not_admin
      not_owner hidden refl

locked_iff_example : (view_of sample_text member file_c (folder_b ∷ []) no_entries).locked ≡ (
    (not (is_super_admin member)
      && not (is_authenticated member && (file_c.owner_id == member.user_id)))
    && (any (stops member) (folder_b ∷ []) || stops member file_c))
locked_iff_example = locked_iff sample_text member file_c (folder_b ∷ []) no_entries

-- The folder with the password is named, and so is the node's own.
lock_names :
    map
      (λ above. (view_of sample_text member folder_b above no_entries).locked_by)
      ([] ∷ (folder_a ∷ []) ∷ (folder_a ∷ record folder_b { id = 6 } ∷ []) ∷ [])
    ≡ 4 ∷ 4 ∷ 6 ∷ []
unfolding evaluate_node_access
lock_names = refl

locked_by_outermost_example :
    IsFirstStop member
      ((folder_a ∷ []) ++ folder_b ∷ [])
      (view_of sample_text member folder_b (folder_a ∷ []) no_entries).locked_by
locked_by_outermost_example =
    locked_by_outermost sample_text member folder_b (folder_a ∷ []) no_entries not_admin

unlock_keeps_perms_example :
    has
      (view_of sample_text (with_unlocked member (4 ∷ [])) file_c (folder_b ∷ []) no_entries).perms
      (view_of sample_text member file_c (folder_b ∷ []) no_entries).perms
    ≡ true
unlock_keeps_perms_example =
    unlock_keeps_perms sample_text member (4 ∷ []) (λ id e. cc) file_c (folder_b ∷ []) no_entries
