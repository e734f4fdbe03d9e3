-- ===== src/Agent/Files/Bodies/Kept.antt =====
-- A copy, whatever is cancelled or fails, changes nothing that was there before.
use nas_os.Common.{
  ℕ, String, ◌<>◌, Bool, true, false, ◌&&◌, not, Option, none, some, List, Result, ok, err, is_some,
  length, Bool-cases, Option-cases, ◌≡◌, refl, ap, ◌∙◌, inl, inr,
}
use nas_os.Common.Actions.{map_error, bind-err, bind-eq, state-map_error, state-bind-give}
use nas_os.Common.Errors.{Exc, rpc_exception}
use nas_os.Common.Related.{Order}
use nas_os.Agent.Files.{Paths, FileSystem, wrap_os_error}
use nas_os.Agent.Files.Bodies.Loop.{each-IsRelated}
use nas_os.Agent.Files.Bodies.{Job, dest_path, dest_for, copy_path, copy_one, copy_body}

-- What is at a path, as `os.path.exists` sees it, and the documented effect of the calls that
-- create: where there was nothing at the destination, all that was there stays as it was.
pub record Creates {S : Type 0} (N : Type 0) (fs : FileSystem S) : Type 0 where
  pub at : S → String → Option N
  pub exists_lem : (path : String) (s : S) → fs.path_exists path s ≡ is_some (at s path)
  pub copytree_lem :
      (source dest path : String) (s : S) (n : N)
      → at s dest ≡ none
      → at s path ≡ some n
      → at (fs.copytree source dest s).1 path ≡ some n
  pub copy_file_lem :
      (source dest path : String) (s : S) (n : N)
      → at s dest ≡ none
      → at s path ≡ some n
      → at (fs.copy_file source dest s).1 path ≡ some n

module _ {S N : Type 0} (at : S → String → Option N) where
  -- Everything that is there in the first state is there in the second, and the same.
  kept : Order S
  kept = record {
    rel = λ s t. (path : String) (n : N) → at s path ≡ some n → at t path ≡ some n;
    reflexive = λ s path n h. h;
    transitive = λ p q path n h. q path n (p path n h);
  }

module _ (paths : Paths) {S N : Type 0} (fs : FileSystem S) (c : Creates N fs) where
  copy_path-kept :
      (source dest path : String) (s : S) (n : N)
      → c.at s dest ≡ none
      → c.at s path ≡ some n
      → c.at (copy_path paths fs source dest s).1 path ≡ some n
  unfolding copy_path
  copy_path-kept source dest path s n free h =
      elim (Bool-cases (fs.is_dir source s && not (fs.is_link source s))) [
        | inl e ↦ rw e (c.copytree_lem source dest path s n free h)
        | inr e ↦ rw e (c.copy_file_lem source dest path s n free h)
      ]

  dest_for-taken :
      (source dest_dir : String) (s : S)
      → fs.path_exists (dest_path paths fs source dest_dir) s ≡ true
      → (e : Exc) × (dest_for paths fs source dest_dir s ≡ (err e, s))
  unfolding dest_for dest_path
  dest_for-taken source dest_dir s h =
      let dest = dest_path paths fs source dest_dir in
      (rpc_exception "already_exists" (dest <> " already exists"), rw h refl)

  dest_for-free :
      (source dest_dir : String) (s : S)
      → fs.path_exists (dest_path paths fs source dest_dir) s ≡ false
      → dest_for paths fs source dest_dir s ≡ (ok (dest_path paths fs source dest_dir), s)
  unfolding dest_for dest_path
  dest_for-free source dest_dir s h = rw h refl

  copy_one-kept :
      (dest_dir source : String) (s : S) (path : String) (n : N)
      → c.at s path ≡ some n
      → c.at (copy_one paths fs dest_dir source s).1 path ≡ some n
  unfolding copy_one
  copy_one-kept dest_dir source s path n h =
      let dest = dest_path paths fs source dest_dir in
      let finding = dest_for paths fs source dest_dir in
      elim (Option-cases (c.at s dest)) [
        | inr (m, e) ↦
            let (x, taken) =
              dest_for-taken source dest_dir s (c.exists_lem dest s ∙ ap is_some e) in
            rw (bind-err finding _ s (ap (λ (a : Result Exc String × S). a.0) taken), taken) h
        | inl e ↦
            let free = dest_for-free source dest_dir s (c.exists_lem dest s ∙ ap is_some e) in
            rw
              (
                bind-eq finding _ s (ap (λ (a : Result Exc String × S). a.0) free),
                free,
                state-bind-give (map_error wrap_os_error (copy_path paths fs source dest))
                    (λ x. ok dest) s,
                state-map_error wrap_os_error (copy_path paths fs source dest) s,
              )
              (copy_path-kept source dest path s n e h)
      ]

-- Where a call that copies to a destination at which there is nothing changes nothing that is there,
-- then at whatever item a copy job is cancelled or fails, and whatever its sources are, everything
-- that was there before the job is there after it, unchanged.
pub copy_body-keeps :
    (paths : Paths) {S N : Type 0} (fs : FileSystem S) (c : Creates N fs) (cancelled : ℕ → Bool)
    (dest_dir : String) (sources : List String) (j : Job S) (path : String) (n : N)
    → c.at j.files path ≡ some n
    → c.at (copy_body paths fs cancelled dest_dir sources j).1.files path ≡ some n
unfolding copy_body kept
copy_body-keeps paths fs c cancelled dest_dir sources j path n h =
    (each-IsRelated (kept c.at) (copy_one paths fs dest_dir) cancelled 0 (length sources) sources
        (λ source. record { related = λ s. copy_one-kept paths fs c dest_dir source s })).related
      j path n h
