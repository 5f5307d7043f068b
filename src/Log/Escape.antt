-- ===== src/Log/Escape.antt =====
-- `%%` in a pattern of src/log.cpp: both bytes are looked at, and the second one starts an item.
use cool.Base.{
  ℕ, suc, ◌+◌, ◌≡◌, refl, ap, ◌∙◌, Bool, true, false, ◌||◌, List, [], ◌∷◌, ◌++◌, some, arith,
  length, ◌==◌, length-append,
}
use cool.Base.Text.{Text, text_eq}
use cool.Log.{
  Piece, item, found, is_alpha, scan_name, flush, starts_percent, split_pattern, LogFormatter,
  new_formatter, items_of, item_of, find_item,
}
use cool.Log.Pattern.{IsPlain, plain_lem, split_pattern-Ends}

-- Whether a piece has no item of its name.
abbrev has_error : List Piece → Bool
has_error [] = false
has_error (p ∷ ps) = (item_of p).1 || has_error ps

items_of-has_error : (ps : List Piece) (e : Bool) → (items_of ps e).1 ≡ (e || has_error ps)
unfolding items_of
items_of-has_error [] true = refl
items_of-has_error [] false = refl
items_of-has_error (p ∷ ps) true = items_of-has_error ps true
items_of-has_error (p ∷ ps) false = items_of-has_error ps (item_of p).1

has_error-append : (ps qs : List Piece) → has_error (ps ++ qs) ≡ (has_error ps || has_error qs)
has_error-append [] qs = refl
has_error-append (p ∷ ps) qs = ground (arith, has_error-append ps qs)

-- What may stand behind `%%` without being read as an item's name, format or percent sign.
abbrev pub IsBreak : Text → Type 0
IsBreak [] = Unit {0}
IsBreak (c ∷ cs) = (is_alpha c ≡ false) × (((c == b'{') || ((c == b'}') || (c == b'%'))) ≡ false)

scan_break : (tail : Text) → IsBreak tail → scan_name [] tail ≡ found [] [] tail
unfolding scan_name
scan_break [] h = refl
scan_break (c ∷ cs) h = ground arith

not_percent : (tail : Text) → IsBreak tail → starts_percent tail ≡ false
not_percent [] h = refl
not_percent (c ∷ cs) h = ground arith

escaped_step :
    (fuel : ℕ) (s tail : Text)
    → IsBreak tail
    → split_pattern (suc (suc fuel)) (b'%' ∷ (b'%' ∷ tail)) s [] false
      ≡ split_pattern fuel tail [] (flush (s ++ b'%' ∷ []) [] ++ item [] [] ∷ []) false
unfolding split_pattern
escaped_step fuel s tail h = rw (not_percent tail h, scan_break tail h)

empty_item : (vec ws : List Piece) → has_error ((vec ++ item [] [] ∷ []) ++ ws) ≡ true
unfolding item_of find_item text_eq
empty_item vec ws =
    has_error-append (vec ++ item [] [] ∷ []) ws
    ∙ ap (λ (b : Bool). b || has_error ws) (has_error-append vec (item [] [] ∷ []))
    ∙ ground arith

-- A pattern in which `%%` stands behind a text without `%`, before the end or before a byte that is
-- neither a letter nor a brace nor `%`, makes a formatter with m_error set.
pub escaped_percent :
    (s tail : Text)
    → IsPlain s
    → IsBreak tail
    → (f : LogFormatter) × (new_formatter (s ++ (b'%' ∷ (b'%' ∷ tail))) ≡ some f) × (f.error ≡ true)
unfolding new_formatter
escaped_percent s tail p h =
    let pattern_ = s ++ (b'%' ∷ (b'%' ∷ tail)) in
    let vec = flush (s ++ b'%' ∷ []) [] in
    let (ws, e, r) =
      split_pattern-Ends (suc (length tail)) tail [] (vec ++ item [] [] ∷ []) false (omega arith) in
    let fuel : suc (length pattern_) ≡ length s + suc (suc (suc (length tail))) =
      omega (arith, length-append s (b'%' ∷ (b'%' ∷ tail))) in
    let all_ = (vec ++ item [] [] ∷ []) ++ ws in
    let run : split_pattern (suc (length pattern_)) pattern_ [] [] false ≡ some (all_, e) =
      ap (λ (i : ℕ). split_pattern i pattern_ [] [] false) fuel
      ∙ plain_lem s (suc (suc (suc (length tail)))) (b'%' ∷ (b'%' ∷ tail)) [] [] false p
      ∙ escaped_step (suc (length tail)) s tail h
      ∙ r in
    (
      record {
        format_pattern = pattern_;
        items = (items_of all_ e).0;
        error = (items_of all_ e).1;
      },
      rw (new_formatter, run),
      items_of-has_error all_ e ∙ or_true e (has_error all_) (empty_item vec ws),
    )
  where
    or_true : (e b : Bool) → b ≡ true → (e || b) ≡ true
    or_true true b k = refl
    or_true false b k = k
