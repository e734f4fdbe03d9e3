-- ===== src/Agent/Files/Bodies/Gone.antt =====
-- A deletion removes the paths in their order, up to the end or up to its cancellation.
use nas_os.Common.{
  ℕ, suc, ◌+◌, ◌≤◌, String, Bool, true, false, ◌&&◌, not, List, [], ◌∷◌, Result, ok, length,
  length-append, take, Bool-cases, ◌≡◌, refl, sym, ap, ◌∙◌, ◌⊎◌, inl, inr, arith,
}
use nas_os.Common.Actions.{
  Action, map_error, bind-ok, map_error-ok, state-map_error, state-bind-give,
}
use nas_os.Common.Related.{Order, IsRelated, give-IsRelated, bind-IsRelated, map_error-IsRelated}
use nas_os.Agent.Files.{Paths, FileSystem, wrap_os_error}
use nas_os.Common.Errors.{Exc}
use nas_os.Agent.Files.Bodies.Loop.{each-IsRelated, each-cancelled, each-step, reported}
use nas_os.Agent.Files.Bodies.{Job, each, delete_path, delete_one, delete_body}

-- Whether a path is there, and the documented effect of the calls that remove: none of them makes
-- a path, and one that returns has removed its own.
pub record Removes {S : Type 0} (fs : FileSystem S) : Type 0 where
  pub present : S → String → Bool
  pub rmtree_lem :
      (path : String) (s : S)
      → (fs.rmtree path s).0 ≡ ok tt
      → present (fs.rmtree path s).1 path ≡ false
  pub remove_lem :
      (path : String) (s : S)
      → (fs.remove path s).0 ≡ ok tt
      → present (fs.remove path s).1 path ≡ false
  pub rmtree_absent :
      (path other : String) (s : S)
      → present s other ≡ false
      → present (fs.rmtree path s).1 other ≡ false
  pub remove_absent :
      (path other : String) (s : S)
      → present s other ≡ false
      → present (fs.remove path s).1 other ≡ false

-- All of a list of paths are absent.
abbrev pub Absent : (String → Bool) → List String → Type 0
Absent present [] = Unit
Absent present (path ∷ paths) = (present path ≡ false) × Absent present paths

-- What a job on items leaves: it worked on the first `k` of them, in their order, reported each,
-- and it worked on all of them or was cancelled at the next.
pub record IsPrefix {S : Type 0} (present : S → String → Bool) (cancelled : ℕ → Bool) (i : ℕ)
    (items : List String) (j j' : Job S) : Type 0 where
  pub k : ℕ
  pub bound : k ≤ length items
  pub end : (k ≡ length items) ⊎ (cancelled (i + k) ≡ true)
  pub gone : Absent (present j'.files) (take k items)
  pub told : length j'.reports ≡ length j.reports + k

module _ {S : Type 0} (present : S → String → Bool) where
  absence : Order S
  absence = record {
    rel = λ s t. (path : String) → present s path ≡ false → present t path ≡ false;
    reflexive = λ s path h. h;
    transitive = λ p q path h. q path (p path h);
  }

  each-IsPrefix :
      (one : String → Action S String) (cancelled : ℕ → Bool) (i total : ℕ) (items : List String)
      (j : Job S)
      → ((item : String) (s : S) (text : String)
          → (one item s).0 ≡ ok text
          → present (one item s).1 item ≡ false)
      → ((item : String) → IsRelated absence (one item))
      → (each one cancelled i total items j).0 ≡ ok tt
      → IsPrefix present cancelled i items j (each one cancelled i total items j).1
  unfolding each absence
  each-IsPrefix one cancelled i total [] j removes keeps h = record {
    k = 0;
    bound = omega arith;
    end = inl refl;
    gone = tt;
    told = omega arith;
  }
  each-IsPrefix one cancelled i total (item ∷ items) j removes keeps h =
      elim (Bool-cases (cancelled i)) [
        | inl c ↦ rw (each-cancelled one cancelled i total item items j c) (record {
          k = 0;
          bound = omega arith;
          end = inr (ap cancelled at_0 ∙ c);
          gone = tt;
          told = omega arith;
        })
        | inr c ↦
            let (text, a, e) = each-step one cancelled i total item items j c h in
            let after = reported one i total item text j in
            let rest =
              each-IsPrefix one cancelled (i + 1) total items after removes keeps
                (ap (λ (x : Result Exc (Unit {0}) × Job S). x.0) (sym e) ∙ h) in
            rw e (record {
              k = suc rest.k;
              bound = (let b = rest.bound in omega arith);
              end = elim rest.end [
                | inl all ↦ inl (ap suc all)
                | inr stopped ↦ inr (ap cancelled (shift rest.k) ∙ stopped)
              ];
              gone = (
                (each-IsRelated absence one cancelled (i + 1) total items keeps).related after item
                    (removes item j.files text a),
                rest.gone,
              );
              told =
                  (let b = rest.told in
                    let l =
                      length-append j.reports
                        (record { done = i + 1; total = total; text = text } ∷ []) in
                    omega arith);
            })
      ]
    where
      shift : (k : ℕ) → i + suc k ≡ i + 1 + k
      shift k = omega arith

      at_0 : i + 0 ≡ i
      at_0 = omega arith

module _ (paths : Paths) {S : Type 0} (fs : FileSystem S) (c : Removes fs) where
  delete_path-gone :
      (path : String) (s : S)
      → (delete_path paths fs path s).0 ≡ ok tt
      → c.present (delete_path paths fs path s).1 path ≡ false
  unfolding delete_path
  delete_path-gone path s h = elim (Bool-cases (fs.is_dir path s && not (fs.is_link path s))) [
    | inl e ↦ rw e (c.rmtree_lem path s (rw e at h))
    | inr e ↦ rw e (c.remove_lem path s (rw e at h))
  ]

  delete_path-IsRelated :
      (path : String) → IsRelated (absence c.present) (delete_path paths fs path)
  unfolding delete_path absence
  delete_path-IsRelated path = record {
    related = λ s other h. elim (Bool-cases (fs.is_dir path s && not (fs.is_link path s))) [
      | inl e ↦ rw e (c.rmtree_absent path other s h)
      | inr e ↦ rw e (c.remove_absent path other s h)
    ];
  }

  delete_one-gone :
      (path : String) (s : S) (text : String)
      → (delete_one paths fs path s).0 ≡ ok text
      → c.present (delete_one paths fs path s).1 path ≡ false
  unfolding delete_one
  delete_one-gone path s text h =
      let removing = map_error wrap_os_error (delete_path paths fs path) in
      let (_, a, h1, e1) = bind-ok removing _ s h in
      rw
        (
          state-bind-give removing (λ x. ok path) s,
          state-map_error wrap_os_error (delete_path paths fs path) s,
        )
        (delete_path-gone path s (map_error-ok wrap_os_error (delete_path paths fs path) s a))

  delete_one-IsRelated : (path : String) → IsRelated (absence c.present) (delete_one paths fs path)
  unfolding delete_one
  delete_one-IsRelated path =
      bind-IsRelated _ _ _ (map_error-IsRelated _ _ _ (delete_path-IsRelated path))
        (λ x. give-IsRelated _ _)

-- Where a call that removes a path and returns has removed it, and none makes a path: a deletion job
-- that ends without an exception has removed the first `k` of its paths, for some `k` up to their
-- number, which are absent at its end, and made `k` reports; and `k` is the number of the paths,
-- unless the job was cancelled at the path that follows.
pub delete_body-IsPrefix :
    (paths : Paths) {S : Type 0} (fs : FileSystem S) (c : Removes fs) (cancelled : ℕ → Bool)
    (items : List String) (j : Job S)
    → (delete_body paths fs cancelled items j).0 ≡ ok tt
    → IsPrefix c.present cancelled 0 items j (delete_body paths fs cancelled items j).1
unfolding delete_body
delete_body-IsPrefix paths fs c cancelled items j h =
    each-IsPrefix c.present (delete_one paths fs) cancelled 0 (length items) items j
      (delete_one-gone paths fs c) (delete_one-IsRelated paths fs c) h
