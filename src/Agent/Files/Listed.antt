-- ===== src/Agent/Files/Listed.antt =====
-- The order of a listing, and that it is complete.
use mathlib.Core.Path.{subst, subst₂}
use mathlib.Core.List.{Perm}
use mathlib.Core.List.Perm
use nas_os.Common.{
  String, Bool, true, false, List, [], ◌∷◌, ◌++◌, Result, ok, err, ok-injective, Result-cases,
  Bool-cases, ◌≡◌, refl, sym, ap, ◌∙◌, inl, inr,
}
use nas_os.Common.Errors.{Exc, os_error}
use nas_os.Agent.Files.{
  Stat, FileEntry, Paths, FileSystem, flag_le, key_le, insert_entry, sort_entries, entry, entry_of,
  entry_or, or_lstat, or_skip, read_entries, list_names, list_dir,
}

module _ (paths : Paths) where
  -- No file stands before a directory, and within one kind the lowered names are in their order.
  abbrev pub IsSorted : List FileEntry → Type 0
  IsSorted [] = Unit
  IsSorted (x ∷ []) = Unit
  IsSorted (x ∷ y ∷ es) =
      (y.is_dir ≡ true → x.is_dir ≡ true)
      × (x.is_dir ≡ y.is_dir → paths.text_le (paths.lower x.name) (paths.lower y.name) ≡ true)
      × IsSorted (y ∷ es)

  -- The order of texts is total.
  abbrev pub IsTotal : Type 0
  IsTotal = (a b : String) → paths.text_le a b ≡ false → paths.text_le b a ≡ true

  flag_le_total :
      (a b : Bool) {le ge : Bool}
      → (le ≡ false → ge ≡ true)
      → flag_le a b le ≡ false
      → flag_le b a ge ≡ true
  unfolding flag_le
  flag_le_total true false total h = cc
  flag_le_total false true total h = refl
  flag_le_total true true total h = total h
  flag_le_total false false total h = total h

  key_le_total : IsTotal → (a b : FileEntry) → key_le paths a b ≡ false → key_le paths b a ≡ true
  unfolding key_le
  key_le_total total a b h = flag_le_total a.is_dir b.is_dir (total _ _) h

  flag_le-ordered :
      (a b le : Bool) → flag_le a b le ≡ true → (b ≡ true → a ≡ true) × (a ≡ b → le ≡ true)
  unfolding flag_le
  flag_le-ordered true false le h = ((λ e. refl), (λ e. cc))
  flag_le-ordered false true le h = cc
  flag_le-ordered true true le h = ((λ e. refl), (λ e. h))
  flag_le-ordered false false le h = ((λ e. e), (λ e. h))

  ordered :
      (x y : FileEntry) (es : List FileEntry)
      → key_le paths x y ≡ true
      → IsSorted (y ∷ es)
      → IsSorted (x ∷ y ∷ es)
  unfolding key_le
  ordered x y es h rest =
      let (flags, names) = flag_le-ordered x.is_dir y.is_dir _ h in (flags, names, rest)

  insert_entry-after :
      IsTotal
      → (y e : FileEntry) (es : List FileEntry) → key_le paths y e ≡ true
      → IsSorted (y ∷ es)
      → IsSorted (y ∷ insert_entry paths e es)
  unfolding insert_entry
  insert_entry-after total y e [] le h = ordered y e [] le tt
  insert_entry-after total y e (x ∷ es) le (flags, names, rest) =
      elim (Bool-cases (key_le paths e x)) [
        | inl c ↦ rw c (ordered y e (x ∷ es) le (ordered e x es c rest))
        | inr c ↦
            rw c (flags, names, insert_entry-after total x e es (key_le_total total e x c) rest)
      ]

  insert_entry-IsSorted :
      IsTotal
      → (e : FileEntry) (es : List FileEntry) → IsSorted es
      → IsSorted (insert_entry paths e es)
  unfolding insert_entry
  insert_entry-IsSorted total e [] h = tt
  insert_entry-IsSorted total e (x ∷ es) h = elim (Bool-cases (key_le paths e x)) [
    | inl c ↦ rw c (ordered e x es c h)
    | inr c ↦ rw c (insert_entry-after total x e es (key_le_total total e x c) h)
  ]

  sort_entries-IsSorted : IsTotal → (es : List FileEntry) → IsSorted (sort_entries paths es)
  unfolding sort_entries
  sort_entries-IsSorted total [] = tt
  sort_entries-IsSorted total (e ∷ es) =
      insert_entry-IsSorted total e (sort_entries paths es) (sort_entries-IsSorted total es)

  insert_entry-Perm :
      (e : FileEntry) (es : List FileEntry) → Perm (insert_entry paths e es) (e ∷ es)
  unfolding insert_entry
  insert_entry-Perm e [] = Perm.rfl
  insert_entry-Perm e (x ∷ es) = elim (Bool-cases (key_le paths e x)) [
    | inl c ↦ rw c Perm.rfl
    | inr c ↦ rw c (Perm.trans (Perm.cons x (insert_entry-Perm e es)) (Perm.swap e x es))
  ]

  sort_entries-Perm : (es : List FileEntry) → Perm (sort_entries paths es) es
  unfolding sort_entries
  sort_entries-Perm [] = Perm.rfl
  sort_entries-Perm (e ∷ es) =
      Perm.trans (insert_entry-Perm e (sort_entries paths es)) (Perm.cons e (sort_entries-Perm es))

-- What a directory holds at a path, by what the two system calls answer: the entry of `stat`,
-- else the one of `lstat`, else nothing.
abbrev pub held_at : Paths → String → Result Exc Stat → Result Exc Stat → List FileEntry
held_at paths path (ok st) second = entry_of paths path st ∷ []
held_at paths path (err _) (ok st) = entry_of paths path st ∷ []
held_at paths path (err _) (err _) = []

module _ (paths : Paths) {S : Type 0} (fs : FileSystem S) where
  -- The entries of a directory's names, one after the other.
  abbrev pub held : String → List String → S → List FileEntry
  held path [] s = []
  held path (name ∷ names) s =
      held_at paths (paths.join path name) (fs.stat (paths.join path name) s)
        (fs.lstat (paths.join path name) s)
      ++ held path names s

  or_skip-held :
      (path : String) (first second : Result Exc Stat) (rest : Result Exc (List FileEntry))
      (raw : List FileEntry)
      → or_skip (entry_or paths path (or_lstat first second)) rest ≡ ok raw
      → (es : List FileEntry) × (rest ≡ ok es) × (raw ≡ held_at paths path first second ++ es)
  unfolding or_skip entry_or or_lstat
  or_skip-held path (ok st) second (ok es) raw h = (es, refl, sym (ok-injective h))
  or_skip-held path (ok st) second (err e) raw h = cc
  or_skip-held path (err (os_error _ _)) (ok st) (ok es) raw h = (es, refl, sym (ok-injective h))
  or_skip-held path (err (os_error _ _)) (ok st) (err e) raw h = cc
  or_skip-held path (err (os_error _ _)) (err (os_error _ _)) rest raw h = (raw, h, refl)
  or_skip-held path (err (os_error _ _)) (err _) rest raw h = cc
  or_skip-held path (err _) second rest raw h = cc

  read_entries-held :
      (path : String) (names : List String) (s : S) (raw : List FileEntry)
      → read_entries paths fs path names s ≡ ok raw
      → raw ≡ held path names s
  unfolding read_entries entry
  read_entries-held path [] s raw h = sym (ok-injective h)
  read_entries-held path (name ∷ names) s raw h =
      let (es, r, e) =
        or_skip-held (paths.join path name) (fs.stat (paths.join path name) s)
          (fs.lstat (paths.join path name) s) (read_entries paths fs path names s) raw h in
      e
      ∙ ap
          (λ xs.
            held_at paths (paths.join path name) (fs.stat (paths.join path name) s)
              (fs.lstat (paths.join path name) s)
            ++ xs)
          (read_entries-held path names s es r)

-- Where the order of texts is total, a listing that is answered never has a file before a
-- directory, has the lowered names of each kind in their order, and holds exactly one entry for
-- every name of the directory that `stat`, or else `lstat`, can read.
pub list_dir-IsSorted :
    (paths : Paths) {S : Type 0} (fs : FileSystem S) (path : String) (s : S) (names : List String)
    (es : List FileEntry)
    → IsTotal paths
    → fs.listdir path s ≡ ok names
    → list_dir paths fs path s ≡ ok es
    → IsSorted paths es × Perm es (held paths fs path names s)
unfolding list_dir list_names
list_dir-IsSorted paths fs path s names es total listed h =
    elim (Result-cases (read_entries paths fs path names s)) [
      | inl (e, r) ↦ let h' = rw (listed, r) at h in cc
      | inr (raw, r) ↦
          let same : sort_entries paths raw ≡ es = ok-injective (rw (listed, r) at h) in
          (
            subst (IsSorted paths) same (sort_entries-IsSorted paths total raw),
            subst₂ Perm same (read_entries-held paths fs path names s raw r)
                (sort_entries-Perm paths raw),
          )
    ]
