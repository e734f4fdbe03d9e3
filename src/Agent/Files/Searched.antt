-- ===== src/Agent/Files/Searched.antt =====
-- The search, which stops at its bound, against the list of all matches.
use mathlib.Core.List.{append_assoc, append-nil}
use nas_os.Common.{
  ℕ, zero, suc, ◌≤◌, String, true, false, List, [], ◌∷◌, ◌++◌, Result, ok, err, length,
  length-append, take, leb, Bool-cases, ◌≡◌, refl, sym, ap, ◌⊎◌, inl, inr, arith, if◌then◌else◌,
}
use nas_os.Common.Errors.{Exc, OsKind, os_error}
use nas_os.Agent.Files.{
  FileEntry, Paths, FileSystem, Search, returned, going, matches_of, go_on, full_or_going,
  append_match, max_search_results, entry, search_name, search_names, search_walk, search_files,
}

module _ {ℓ} {A : Type ℓ} where
  take-all : (n : ℕ) (xs : List A) → leb (length xs) n ≡ true → take n xs ≡ xs
  take-all zero [] h = refl
  take-all zero (x ∷ xs) h = ground arith
  take-all (suc n) [] h = refl
  take-all (suc n) (x ∷ xs) h = ap (◌∷◌ x) (take-all n xs (ground arith))

  take-append : (n : ℕ) (xs ys : List A) → leb n (length xs) ≡ true → take n (xs ++ ys) ≡ take n xs
  take-append zero xs ys h = refl
  take-append (suc n) [] ys h = ground arith
  take-append (suc n) (x ∷ xs) ys h = ap (◌∷◌ x) (take-append n xs ys (ground arith))

  length-take : (n : ℕ) (xs : List A) → length (take n xs) ≤ n
  length-take zero xs = omega arith
  length-take (suc n) [] = omega arith
  length-take (suc n) (x ∷ xs) = let l = length-take n xs in omega arith

none_at_start : leb max_search_results 0 ≡ false
unfolding max_search_results
none_at_start = refl

-- What the search makes of all its matches so far.
abbrev status : List FileEntry → Search
status all =
    if leb max_search_results (length all)
    then returned (take max_search_results all)
    else going all

status-going :
    (ms : List FileEntry) → leb max_search_results (length ms) ≡ false → status ms ≡ going ms
status-going ms h = rw h refl

-- The rest of a loop, after a part whose matches are `p`.
go_on-status :
    (p q : List FileEntry) (rest : List FileEntry → Result Exc Search)
    → (leb max_search_results (length p) ≡ false → rest p ≡ ok (status (p ++ q)))
    → go_on (ok (status p)) rest ≡ ok (status (p ++ q))
unfolding go_on
go_on-status p q rest h = elim (Bool-cases (leb max_search_results (length p))) [
  | inl e ↦
      let l = length-append p q in
      let longer : leb max_search_results (length (p ++ q)) ≡ true = ground arith in
      rw (e, longer) (ap (λ ms. ok (returned ms)) (sym (take-append max_search_results p q e)))
  | inr e ↦ rw e (h e)
]

full_or_going-status :
    (ms : List FileEntry) (e : FileEntry)
    → leb max_search_results (length ms) ≡ false
    → full_or_going (ms ++ (e ∷ [])) ≡ status (ms ++ (e ∷ []))
unfolding full_or_going
full_or_going-status ms e h = elim (Bool-cases (leb max_search_results (length (ms ++ (e ∷ []))))) [
  | inl f ↦
      let l = length-append ms (e ∷ []) in
      rw f (ap returned (sym (take-all max_search_results (ms ++ (e ∷ [])) (ground arith))))
  | inr f ↦ rw f refl
]

-- The entry that can be read, if any.
unfoldable pub readable : Result Exc FileEntry → List FileEntry
readable (ok e) = e ∷ []
readable (err _) = []

module _ (paths : Paths) {S : Type 0} (fs : FileSystem S) where
  -- The matches among some names, and in a whole walk, without a bound.
  unfoldable pub matching_name : String → String → String → S → List FileEntry
  unfolding readable
  matching_name query root name s =
      if paths.occurs_in query (paths.lower name)
      then readable (entry paths fs (paths.join root name) s)
      else []

  unfoldable pub matching_names : String → String → List String → S → List FileEntry
  unfolding matching_name
  matching_names query root [] s = []
  matching_names query root (name ∷ names) s =
      matching_name query root name s ++ matching_names query root names s

  unfoldable pub matching_walk :
      String → List (String × List String × List String) → S → List FileEntry
  unfolding matching_names
  matching_walk query [] s = []
  matching_walk query ((root, dirnames, filenames) ∷ rest) s =
      matching_names query root (dirnames ++ filenames) s ++ matching_walk query rest s

  -- Reading an entry raises nothing but `OSError`.
  abbrev pub ReadsOrOsError : S → Type 0
  ReadsOrOsError s =
      (path : String)
      → ((e : FileEntry) × (entry paths fs path s ≡ ok e))
        ⊎ ((kind : OsKind) × (message : String) × (entry paths fs path s
              ≡ err (os_error kind message)))

  search_name-status :
      (query root name : String) (s : S) (ms : List FileEntry)
      → ReadsOrOsError s
      → leb max_search_results (length ms) ≡ false
      → search_name paths fs query root name s ms
        ≡ ok (status (ms ++ matching_name query root name s))
  unfolding search_name matching_name append_match readable
  search_name-status query root name s ms reads h =
      elim (Bool-cases (paths.occurs_in query (paths.lower name))) [
        | inr e ↦ rw (e, append-nil ms, h) refl
        | inl e ↦ elim (reads (paths.join root name)) [
          | inl (f, r) ↦ rw (e, r) (ap ok (full_or_going-status ms f h))
          | inr (k, m, r) ↦ rw (e, r, append-nil ms, h) refl
        ]
      ]

  search_names-status :
      (query root : String) (names : List String) (s : S) (ms : List FileEntry)
      → ReadsOrOsError s
      → leb max_search_results (length ms) ≡ false
      → search_names paths fs query root names s ms
        ≡ ok (status (ms ++ matching_names query root names s))
  unfolding search_names matching_names
  search_names-status query root [] s ms reads h = rw (append-nil ms, h) refl
  search_names-status query root (name ∷ names) s ms reads h =
      rw
        (
          search_name-status query root name s ms reads h,
          sym (
              append_assoc ms (matching_name query root name s)
                (matching_names query root names s)),
        )
        (go_on-status (ms ++ matching_name query root name s) _ _ (λ g.
          search_names-status query root names s (ms ++ matching_name query root name s) reads g))

  search_walk-status :
      (query : String) (walk : List (String × List String × List String)) (s : S)
      (ms : List FileEntry)
      → ReadsOrOsError s
      → leb max_search_results (length ms) ≡ false
      → search_walk paths fs query walk s ms ≡ ok (status (ms ++ matching_walk query walk s))
  unfolding search_walk matching_walk
  search_walk-status query [] s ms reads h = rw (append-nil ms, h) refl
  search_walk-status query ((root, dirnames, filenames) ∷ rest) s ms reads h =
      let here = matching_names query root (dirnames ++ filenames) s in
      rw
        (
          search_names-status query root (dirnames ++ filenames) s ms reads h,
          sym (append_assoc ms here (matching_walk query rest s)),
        )
        (go_on-status (ms ++ here) _ _ (λ g. search_walk-status query rest s (ms ++ here) reads g))

  matches-status : (all : List FileEntry) → matches_of (status all) ≡ take max_search_results all
  matches-status all = elim (Bool-cases (leb max_search_results (length all))) [
    | inl e ↦ rw e refl
    | inr e ↦ rw e (sym (take-all max_search_results all (ground arith)))
  ]

-- Where reading an entry raises nothing but `OSError`, a search answers with the first
-- `MAX_SEARCH_RESULTS` of the readable entries under the path whose names match, in the order of
-- the walk, and with all of them where there are no more; so with at most that many.
pub search_files-eq-take :
    (paths : Paths) {S : Type 0} (fs : FileSystem S) (path query : String) (s : S)
    → ReadsOrOsError paths fs s
    → (search_files paths fs path query s
        ≡ ok (
            take max_search_results
              (matching_walk paths fs (paths.lower query) (fs.walk path s) s)))
      × (length (
            take max_search_results (matching_walk paths fs (paths.lower query) (fs.walk path s) s))
          ≤ max_search_results)
unfolding search_files
search_files-eq-take paths fs path query s reads =
    let all = matching_walk paths fs (paths.lower query) (fs.walk path s) s in
    (
      rw (search_walk-status paths fs (paths.lower query) (fs.walk path s) s [] reads none_at_start)
          (ap ok (matches-status paths fs all)),
      length-take max_search_results all,
    )
