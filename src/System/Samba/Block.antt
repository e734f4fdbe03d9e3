-- ===== src/System/Samba/Block.antt =====
-- Where `ensure_include_block` puts the block, and that it puts it once.
use text.Mathlib.TextLemmas.{append_assoc}
use mathlib.Core.List
use nas_os.Common.{
  ℕ, suc, ◌+◌, String, ◌<>◌, true, false, List, [], ◌∷◌, ◌++◌, length, length-append, take, drop,
  Bool-cases, ◌≡◌, refl, sym, ap, ◌∙◌, ◌⊎◌, inl, inr, arith,
}
use nas_os.System.Samba.{
  TextOps, join_lines, is_global, is_section, end_from, end_of_global_section, insert_block,
  ensure_include_block, marker_begin, after_marker, marker_block,
}

module _ {ℓ} {A : Type ℓ} where
  take-length : (xs ys : List A) → take (length xs) (xs ++ ys) ≡ xs
  take-length [] ys = refl
  take-length (x ∷ xs) ys = ap (◌∷◌ x) (take-length xs ys)

  drop-length : (xs ys : List A) → drop (length xs) (xs ++ ys) ≡ ys
  drop-length [] ys = refl
  drop-length (x ∷ xs) ys = drop-length xs ys

plus_zero : (i : ℕ) → i ≡ 0 + i
plus_zero i = omega arith

plus_suc : (n i : ℕ) → n + suc i ≡ suc n + i
plus_suc n i = omega arith

module _ (text : TextOps) where
  -- None of the lines opens the section [global].
  abbrev pub NoGlobal : List String → Type 0
  NoGlobal [] = Unit
  NoGlobal (line ∷ lines) = (is_global text line ≡ false) × NoGlobal lines

  -- None of the lines opens a section but [global].
  abbrev pub NoOther : List String → Type 0
  NoOther [] = Unit
  NoOther (line ∷ lines) =
      ((is_global text line ≡ true) ⊎ (is_section text line ≡ false)) × NoOther lines

  -- The lines are none, or begin with one that opens another section.
  abbrev pub Opens : List String → Type 0
  Opens [] = Unit
  Opens (line ∷ _) = (is_global text line ≡ false) × (is_section text line ≡ true)

  -- A text that has the marker in it has it, for `in`.
  abbrev pub FindsMarker : Type 0
  FindsMarker = (a b : String) → text.occurs_in marker_begin (a <> (marker_begin <> b)) ≡ true

  end_from-before :
      (i : ℕ) (before lines : List String)
      → NoGlobal before
      → end_from text false i (before ++ lines) ≡ end_from text false (length before + i) lines
  unfolding end_from
  end_from-before i [] lines h = ap (λ n. end_from text false n lines) (plus_zero i)
  end_from-before i (line ∷ before) lines (n, h) = rw n (
      end_from-before (suc i) before lines h
      ∙ ap (λ n. end_from text false n lines) (plus_suc (length before) i))

  end_from-body :
      (i : ℕ) (body rest : List String)
      → NoOther body
      → Opens rest
      → end_from text true i (body ++ rest) ≡ length body + i
  unfolding end_from
  end_from-body i [] [] h o = plus_zero i
  end_from-body i [] (line ∷ rest) h (n, s) = rw (n, s) (plus_zero i)
  end_from-body i (line ∷ body) rest (inl g, h) o =
      rw g (end_from-body (suc i) body rest h o ∙ plus_suc (length body) i)
  end_from-body i (line ∷ body) rest (inr s, h) o = elim (Bool-cases (is_global text line)) [
    | inl g ↦ rw g (end_from-body (suc i) body rest h o ∙ plus_suc (length body) i)
    | inr n ↦ rw (n, s) (end_from-body (suc i) body rest h o ∙ plus_suc (length body) i)
  ]

  end_from-global :
      (i : ℕ) (body rest : List String) (line : String)
      → is_global text line ≡ true
      → end_from text false i (line ∷ (body ++ rest)) ≡ end_from text true (suc i) (body ++ rest)
  unfolding end_from
  end_from-global i body rest line g = rw g refl

  end_of-split :
      (before body rest : List String) (line : String)
      → NoGlobal before
      → is_global text line ≡ true
      → NoOther body
      → Opens rest
      → end_of_global_section text (before ++ (line ∷ (body ++ rest)))
        ≡ length (before ++ (line ∷ body))
  unfolding end_of_global_section
  end_of-split before body rest line h g b o =
      let l = length-append before (line ∷ body) in
      let l' : length body + suc (length before + 0) ≡ length (before ++ (line ∷ body)) =
        omega arith in
      end_from-before 0 before (line ∷ (body ++ rest)) h
      ∙ (end_from-global (length before + 0) body rest line g
          ∙ (end_from-body (suc (length before + 0)) body rest b o ∙ l'))

  insert_block-split :
      (before body rest : List String) (line : String)
      → NoGlobal before
      → is_global text line ≡ true
      → NoOther body
      → Opens rest
      → insert_block text (before ++ (line ∷ (body ++ rest)))
        ≡ join_lines (before ++ (line ∷ body)) <> (marker_block <> join_lines rest)
  unfolding insert_block
  insert_block-split before body rest line h g b o =
      let head = before ++ (line ∷ body) in
      let whole : before ++ (line ∷ (body ++ rest)) ≡ head ++ rest =
        sym (List.append_assoc before (line ∷ body) rest) in
      let at : end_of_global_section text (head ++ rest) ≡ length head =
        sym (ap (end_of_global_section text) whole) ∙ end_of-split before body rest line h g b o in
      rw (whole, at, take-length head rest, drop-length head rest) refl

  insert_block-marked :
      FindsMarker
      → (lines : List String) → text.occurs_in marker_begin (insert_block text lines) ≡ true
  unfolding insert_block marker_block
  insert_block-marked finds lines =
      let head = join_lines (take (end_of_global_section text lines) lines) in
      let tail = join_lines (drop (end_of_global_section text lines) lines) in
      ap (λ block. text.occurs_in marker_begin (head <> block))
        (append_assoc marker_begin after_marker tail)
      ∙ finds head _

-- Of a text without the marker, whose lines are some that do not open [global], one that does, some
-- that open no other section, and the rest, which is empty or opens another section, the block goes
-- between the last two parts; and where `in` finds the marker, a second run changes nothing.
pub ensure_include_block-split :
    (text : TextOps) (conf : String) (before body rest : List String) (line : String)
    → FindsMarker text
    → text.occurs_in marker_begin conf ≡ false
    → text.splitlines conf ≡ before ++ (line ∷ (body ++ rest))
    → NoGlobal text before
    → is_global text line ≡ true
    → NoOther text body
    → Opens text rest
    → (ensure_include_block text conf
        ≡ join_lines (before ++ (line ∷ body)) <> (marker_block <> join_lines rest))
      × (ensure_include_block text (ensure_include_block text conf)
          ≡ ensure_include_block text conf)
unfolding ensure_include_block
ensure_include_block-split text conf before body rest line finds fresh lines h g b o =
    rw (fresh, lines)
      (
        insert_block-split text before body rest line h g b o,
        rw (insert_block-marked text finds (before ++ (line ∷ (body ++ rest)))) refl,
      )
