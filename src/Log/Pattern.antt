-- ===== src/Log/Pattern.antt =====
-- The pattern parser of LogFormatter::init in src/log.cpp: it ends, and it reads back what is written
-- in its own notation.
use mathlib.Core.List.{append-nil, append_assoc}
use cool.Base.{
  ℕ, zero, suc, ◌+◌, ◌-◌, ◌≤◌, ◌<◌, ◌≡◌, refl, sym, ap, ◌∙◌, Bool, true, false, not, ◌&&◌, List, [],
  ◌∷◌, ◌++◌, Option, some, arith, length, ◌==◌, Bool-cases, inl, inr, All, length-append,
}
use cool.Base.Text.{Text}
use cool.Log.{
  Piece, text, item, Scan, found, unterminated, is_alpha, scan_format, scan_name, flush,
  parse_error, starts_percent, split_pattern, LogFormatter, new_formatter, items_of,
}

-- What a scan leaves is no longer than what it was given.
abbrev IsShorter : ℕ → Scan → Type 0
IsShorter n (found name fmt rest) = length rest ≤ n
IsShorter n unterminated = Unit {0}

IsShorter-suc : (n : ℕ) (r : Scan) → IsShorter n r → IsShorter (suc n) r
IsShorter-suc n (found name fmt rest) h = omega arith
IsShorter-suc n unterminated h = tt

scan_format-IsShorter : (name fmt cs : Text) → IsShorter (length cs) (scan_format name fmt cs)
unfolding scan_format
scan_format-IsShorter name fmt [] = tt
scan_format-IsShorter name fmt (c ∷ cs) = elim (Bool-cases (c == b'}')) [
  | inl e ↦ rw e (omega arith)
  | inr e ↦ rw e (IsShorter-suc (length cs) _ (scan_format-IsShorter name (fmt ++ c ∷ []) cs))
]

pub scan_name-IsShorter : (name cs : Text) → IsShorter (length cs) (scan_name name cs)
unfolding scan_name
scan_name-IsShorter name [] = omega arith
scan_name-IsShorter name (c ∷ cs) =
    elim (Bool-cases (not (is_alpha c) && (not (c == b'{') && not (c == b'}')))) [
      | inl e ↦ rw e (omega arith)
      | inr e ↦ rw e (elim (Bool-cases (c == b'{')) [
        | inl f ↦ rw f (IsShorter-suc (length cs) _ (scan_format-IsShorter name [] cs))
        | inr f ↦ rw f (IsShorter-suc (length cs) _ (scan_name-IsShorter (name ++ c ∷ []) cs))
      ])
    ]

-- The loop ends, with what it pushed behind `vec`.
abbrev Ends : List Piece → Option (List Piece × Bool) → Type 0
Ends vec r = (ws : List Piece) × (e : Bool) × (r ≡ some (vec ++ ws, e))

Ends-more : (vec us : List Piece) (r : Option (List Piece × Bool)) → Ends (vec ++ us) r → Ends vec r
Ends-more vec us r (ws, e, h) =
    (us ++ ws, e, h ∙ ap (λ (l : List Piece). some (l, e)) (append_assoc vec us ws))

flush-Ends :
    (nstr : Text) (vec : List Piece) (error : Bool) → Ends vec (some (flush nstr vec, error))
flush-Ends [] vec error =
    ([], error, ap (λ (l : List Piece). some (l, error)) (sym (append-nil vec)))
flush-Ends (c ∷ s) vec error = (text (c ∷ s) ∷ [], error, refl)

flush_more :
    (nstr : Text) (vec us : List Piece) (r : Option (List Piece × Bool))
    → Ends (flush nstr vec ++ us) r
    → Ends vec r
flush_more [] vec us r h = Ends-more vec us r h
flush_more (c ∷ s) vec us r h =
    Ends-more vec (text (c ∷ s) ∷ []) r (Ends-more (vec ++ text (c ∷ s) ∷ []) us r h)

percent_step :
    (fuel : ℕ) (cs nstr : Text) (vec : List Piece) (error : Bool)
    → ((p s : Text) (v : List Piece) (e : Bool)
        → length p < fuel
        → Ends v (split_pattern fuel p s v e))
    → length cs < fuel
    → (r : Scan) → IsShorter (length cs) r
    → Ends vec (elim r as (λ _. Option (List Piece × Bool)) [
      | found name fmt rest ↦
          split_pattern fuel rest [] (flush nstr vec ++ item name fmt ∷ []) error
      | unterminated ↦ split_pattern fuel cs nstr (vec ++ parse_error ∷ []) true
    ])
percent_step fuel cs nstr vec error ih h (found name fmt rest) k =
    flush_more nstr vec (item name fmt ∷ []) _
      (ih rest [] (flush nstr vec ++ item name fmt ∷ []) error (omega arith))
percent_step fuel cs nstr vec error ih h unterminated k =
    Ends-more vec (parse_error ∷ []) _ (ih cs nstr (vec ++ parse_error ∷ []) true h)

pub split_pattern-Ends :
    (fuel : ℕ) (p nstr : Text) (vec : List Piece) (error : Bool)
    → length p < fuel
    → (ws : List Piece) × (e : Bool) × (split_pattern fuel p nstr vec error ≡ some (vec ++ ws, e))
unfolding split_pattern
split_pattern-Ends zero p nstr vec error h = absurd (omega arith)
split_pattern-Ends (suc fuel) [] nstr vec error h = flush-Ends nstr vec error
split_pattern-Ends (suc fuel) (c ∷ cs) nstr vec error h = elim (Bool-cases (c == b'%')) [
  | inr e ↦ rw e (split_pattern-Ends fuel cs (nstr ++ c ∷ []) vec error (omega arith))
  | inl e ↦ rw e (elim (Bool-cases (starts_percent cs)) [
    | inl f ↦ rw f (split_pattern-Ends fuel cs (nstr ++ b'%' ∷ []) vec error (omega arith))
    | inr f ↦ rw f (
        percent_step fuel cs nstr vec error (split_pattern-Ends fuel) (omega arith)
          (scan_name [] cs) (scan_name-IsShorter [] cs))
  ])
]

-- For every pattern the loops of init end, so that the constructor makes a formatter of it.
pub new_formatter_total :
    (p : Text) → (f : LogFormatter) × (new_formatter p ≡ some f) × (f.format_pattern ≡ p)
unfolding new_formatter
new_formatter_total p =
    let (ws, e, h) = split_pattern-Ends (suc (length p)) p [] [] false (omega arith) in
    (
      record { format_pattern = p; items = (items_of ws e).0; error = (items_of ws e).1 },
      rw (new_formatter, h),
      refl,
    )

-- A text, and the item behind it with its name and format.
pub record Segment : Type 0 where
  pub before : Text
  pub name : Text
  pub fmt : Text

abbrev pub IsPlain : Text → Type 0
IsPlain = All (λ c. (c == b'%') ≡ false)

abbrev pub IsName : Text → Type 0
IsName = All (λ c. is_alpha c ≡ true)

abbrev pub IsFormat : Text → Type 0
IsFormat = All (λ c. (c == b'}') ≡ false)

abbrev pub IsWritable : List Segment → Type 0
IsWritable = All (λ g. IsPlain g.before × (IsName g.name × IsFormat g.fmt))

-- The pattern of the segments, each item with its format in braces.
unfoldable pub write_pattern : List Segment → Text → Text
write_pattern [] tail = tail
write_pattern (g ∷ gs) tail =
    g.before ++ (b'%' ∷ (g.name ++ (b'{' ∷ (g.fmt ++ (b'}' ∷ write_pattern gs tail)))))

-- What init is to collect of it.
unfoldable pub pieces : List Segment → Text → List Piece
pieces [] tail = flush tail []
pieces (g ∷ gs) tail = flush g.before [] ++ (item g.name g.fmt ∷ pieces gs tail)

flush-append : (s : Text) (vec : List Piece) → flush s vec ≡ vec ++ flush s []
flush-append [] vec = sym (append-nil vec)
flush-append (c ∷ s) vec = refl

pub plain_lem :
    (s : Text) (fuel : ℕ) (rest nstr : Text) (vec : List Piece) (error : Bool)
    → IsPlain s
    → split_pattern (length s + fuel) (s ++ rest) nstr vec error
      ≡ split_pattern fuel rest (nstr ++ s) vec error
unfolding split_pattern
plain_lem [] fuel rest nstr vec error h =
    let e : 0 + fuel ≡ fuel = omega arith in rw (e, append-nil)
plain_lem (c ∷ s) fuel rest nstr vec error h =
    let e : suc (length s) + fuel ≡ suc (length s + fuel) = omega arith in
    rw e (rw h.0 (plain_lem s fuel rest (nstr ++ c ∷ []) vec error h.1 ∙ rw append_assoc))

scan_format_lem :
    (name acc fmt rest : Text)
    → IsFormat fmt
    → scan_format name acc (fmt ++ (b'}' ∷ rest)) ≡ found name (acc ++ fmt) rest
unfolding scan_format
scan_format_lem name acc [] rest h = rw append-nil
scan_format_lem name acc (c ∷ fmt) rest h =
    rw h.0 (scan_format_lem name (acc ++ c ∷ []) fmt rest h.1 ∙ rw append_assoc)

scan_name_lem :
    (acc name fmt rest : Text)
    → IsName name
    → IsFormat fmt
    → scan_name acc (name ++ (b'{' ∷ (fmt ++ (b'}' ∷ rest)))) ≡ found (acc ++ name) fmt rest
unfolding scan_name
scan_name_lem acc [] fmt rest h k = rw append-nil (scan_format_lem acc [] fmt rest k)
scan_name_lem acc (c ∷ name) fmt rest h k =
    let b : (c == b'{') ≡ false = ground (arith, h.0) in
    rw (h.0, b) (scan_name_lem (acc ++ c ∷ []) name fmt rest h.1 k ∙ rw append_assoc)

no_percent : (name rest : Text) → IsName name → starts_percent (name ++ (b'{' ∷ rest)) ≡ false
no_percent [] rest h = refl
no_percent (c ∷ name) rest h = ground (arith, h.0)

item_step :
    (g : Segment) (fuel : ℕ) (rest nstr : Text) (vec : List Piece) (error : Bool)
    → IsName g.name
    → IsFormat g.fmt
    → split_pattern (suc fuel) (b'%' ∷ (g.name ++ (b'{' ∷ (g.fmt ++ (b'}' ∷ rest))))) nstr vec error
      ≡ split_pattern fuel rest [] (flush nstr vec ++ item g.name g.fmt ∷ []) error
unfolding split_pattern
item_step g fuel rest nstr vec error h k =
    rw (no_percent g.name (g.fmt ++ (b'}' ∷ rest)) h, scan_name_lem [] g.name g.fmt rest h k)

abbrev rounds : List Segment → Text → ℕ
rounds [] tail = length tail
rounds (g ∷ gs) tail = length g.before + suc (rounds gs tail)

regroup :
    (g : Segment) (vec rest : List Piece)
    → (flush g.before vec ++ item g.name g.fmt ∷ []) ++ rest
      ≡ vec ++ (flush g.before [] ++ (item g.name g.fmt ∷ rest))
regroup g vec rest =
    append_assoc (flush g.before vec) (item g.name g.fmt ∷ []) rest
    ∙ ap (λ (l : List Piece). l ++ (item g.name g.fmt ∷ rest)) (flush-append g.before vec)
    ∙ append_assoc vec (flush g.before []) (item g.name g.fmt ∷ rest)

segments_lem :
    (gs : List Segment) (tail : Text) (k : ℕ) (vec : List Piece) (error : Bool)
    → IsWritable gs
    → IsPlain tail
    → split_pattern (rounds gs tail + suc k) (write_pattern gs tail) [] vec error
      ≡ some (vec ++ pieces gs tail, error)
unfolding write_pattern pieces
segments_lem [] tail k vec error w p =
    ap (λ (t : Text). split_pattern (length tail + suc k) t [] vec error) (sym (append-nil tail))
    ∙ plain_lem tail (suc k) [] [] vec error p
    ∙ unfold split_pattern in ap (λ (l : List Piece). some (l, error)) (flush-append tail vec)
segments_lem (g ∷ gs) tail k vec error w p =
    let e : length g.before + suc (rounds gs tail) + suc k
        ≡ length g.before + suc (rounds gs tail + suc k) =
      omega arith in
    ap (λ (i : ℕ). split_pattern i (write_pattern (g ∷ gs) tail) [] vec error) e
    ∙ plain_lem g.before (suc (rounds gs tail + suc k)) _ [] vec error w.0.0
    ∙ item_step g (rounds gs tail + suc k) (write_pattern gs tail) g.before vec error w.0.1.0
        w.0.1.1
    ∙ segments_lem gs tail k (flush g.before vec ++ item g.name g.fmt ∷ []) error w.1 p
    ∙ ap (λ (l : List Piece). some (l, error)) (regroup g vec (pieces gs tail))

rounds-le : (gs : List Segment) (tail : Text) → rounds gs tail ≤ length (write_pattern gs tail)
unfolding write_pattern
rounds-le [] tail = omega arith
rounds-le (g ∷ gs) tail =
    let x = b'}' ∷ write_pattern gs tail in
    omega (
      arith,
      rounds-le gs tail,
      length-append g.before (b'%' ∷ (g.name ++ (b'{' ∷ (g.fmt ++ x)))),
      length-append g.name (b'{' ∷ (g.fmt ++ x)),
      length-append g.fmt x,
    )

-- A pattern of texts without `%`, item names of letters, and formats in braces without `}`, is read
-- back into exactly these texts and items, in order and with no error.
pub write_pattern-split_pattern :
    (gs : List Segment) (tail : Text)
    → IsWritable gs
    → IsPlain tail
    → split_pattern (suc (length (write_pattern gs tail))) (write_pattern gs tail) [] [] false
      ≡ some (pieces gs tail, false)
write_pattern-split_pattern gs tail w p =
    let n = length (write_pattern gs tail) in
    let e : suc n ≡ rounds gs tail + suc (n - rounds gs tail) = omega (arith, rounds-le gs tail) in
    ap (λ (i : ℕ). split_pattern i (write_pattern gs tail) [] [] false) e
    ∙ segments_lem gs tail (n - rounds gs tail) [] false w p
