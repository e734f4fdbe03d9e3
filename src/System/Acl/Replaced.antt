-- ===== src/System/Acl/Replaced.antt =====
-- Reading an access list in memory gives what it was replaced by.
use mathlib.Core.List.{append-nil, append_assoc, map-append}
use nas_os.Common.{
  ℕ, String, Bool, false, none, List, [], ◌∷◌, ◌++◌, map, ok, Bool-cases, ◌≡◌, refl, sym, ap, ◌∙◌,
  ◌==◌, inl, inr, string_eq, nat_eq, pair_eq,
}
use nas_os.Common.Dict
use nas_os.Common.Dict.{Dict, lookup-insert, lookup-insert_same}
use nas_os.System.Acl.{AclEntry, FakeAcl, by_principal, to_entry, entries_of, fake_acl}

-- Not one of the entries is for the principal.
abbrev pub Fresh : String × ℕ → List AclEntry → Type 0
Fresh p [] = Unit
Fresh p (e ∷ es) = (((e.kind, e.numeric_id) == p) ≡ false) × Fresh p es

-- No principal has two entries.
abbrev pub Distinct : List AclEntry → Type 0
Distinct [] = Unit
Distinct (e ∷ es) = Fresh (e.kind, e.numeric_id) es × Distinct es

abbrev AbsentAll : List AclEntry → Dict (String × ℕ) String → Type 0
AbsentAll [] d = Unit
AbsentAll (e ∷ es) d = (Dict.lookup (e.kind, e.numeric_id) d ≡ none) × AbsentAll es d

insert-absent :
    (p : String × ℕ) (level : String) (d : Dict (String × ℕ) String)
    → Dict.lookup p d ≡ none
    → Dict.insert p level d ≡ d ++ ((p, level) ∷ [])
unfolding Dict.insert Dict.lookup
insert-absent p level [] h = refl
insert-absent p level ((q, v) ∷ d) h = elim (Bool-cases (p == q)) [
  | inl e ↦ let h' = rw e at h in cc
  | inr e ↦ rw e (ap (◌∷◌ (q, v)) (insert-absent p level d (rw e at h)))
]

AbsentAll-insert :
    (es : List AclEntry) (p : String × ℕ) (level : String) (d : Dict (String × ℕ) String)
    → Fresh p es
    → AbsentAll es d
    → AbsentAll es (Dict.insert p level d)
AbsentAll-insert [] p level d f a = tt
AbsentAll-insert (e ∷ es) p level d (n, f) (a, r) =
    (rw (lookup-insert (e.kind, e.numeric_id) p level d, n) a, AbsentAll-insert es p level d f r)

by_principal-append :
    (es : List AclEntry) (d : Dict (String × ℕ) String)
    → Distinct es
    → AbsentAll es d
    → map to_entry (by_principal es d) ≡ map to_entry d ++ es
unfolding by_principal
by_principal-append [] d h a = sym (append-nil (map to_entry d))
by_principal-append (e ∷ es) d (f, h) (a, r) =
    let p : String × ℕ = (e.kind, e.numeric_id) in
    by_principal-append es (Dict.insert p e.level d) h (AbsentAll-insert es p e.level d f r)
    ∙ ap (λ x. map to_entry x ++ es) (insert-absent p e.level d a)
    ∙ ap (λ x. x ++ es) (map-append to_entry d ((p, e.level) ∷ []))
    ∙ append_assoc (map to_entry d) (e ∷ []) es

AbsentAll-nil : (es : List AclEntry) → AbsentAll es []
unfolding Dict.lookup
AbsentAll-nil [] = tt
AbsentAll-nil (e ∷ es) = (refl, AbsentAll-nil es)

-- The access list that replaced the one of a path, whatever that was, is read back as it was given,
-- where no principal has two entries in it.
pub read_acl-replace_all :
    (path : String) (entries : List AclEntry) (recursive : Bool) (s : FakeAcl)
    → Distinct entries
    → fake_acl.read_acl path (fake_acl.replace_all path entries recursive s).1 ≡ ok entries
unfolding fake_acl entries_of
read_acl-replace_all path entries recursive s h =
    rw (lookup-insert_same path (by_principal entries []) s)
      (ap ok (by_principal-append entries [] h (AbsentAll-nil entries)))
