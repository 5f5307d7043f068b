-- ===== src/Log/Delivery.antt =====
-- What Logger::log of src/log.cpp writes, and where.
use mathlib.Core.List.{append-nil, append_assoc}
use cool.Base.{
  ℕ, ◌≡◌, ◌≢◌, refl, sym, ap, ◌∙◌, true, not, List, [], ◌∷◌, ◌++◌, map, Option, none, some, arith,
  leb, ◌==◌, if◌then◌else◌, Bool-cases, inl, inr, ◌⊎◌, All, is_some, Option-cases,
}
use cool.Base.Text.{Text}
use cool.Log.{LogEvent, LogFormatter, format_items}
use cool.Log.Loggers.{Target, Logs, append, append_all, log, log_root}

-- The text of an appender, empty without a formatter.
abbrev pub line_of : (Text → ℕ → Text) → LogEvent → Option LogFormatter → Text
line_of date e none = []
line_of date e (some f) = format_items date f.items e

abbrev pub entry : (Text → ℕ → Text) → Logs → LogEvent → ℕ → Target × Text
entry date s e p = ((s.appenders p).target, line_of date e (s.appenders p).formatter)

abbrev pub HasFormatters : Logs → List ℕ → Type 0
HasFormatters s = All (λ p. is_some (s.appenders p).formatter ≡ true)

append_lem :
    (date : Text → ℕ → Text) (s : Logs) (e : LogEvent) (p : ℕ)
    → is_some (s.appenders p).formatter ≡ true
    → append date s e p ≡ some (record s { written = s.written ++ entry date s e p ∷ [] })
unfolding append
append_lem date s e p h = elim (Option-cases (s.appenders p).formatter) [
  | inl n ↦ absurd (ground arith)
  | inr (f, n) ↦ rw (append, n)
]

append_all_lem :
    (date : Text → ℕ → Text) (s : Logs) (e : LogEvent) (ps : List ℕ)
    → HasFormatters s ps
    → append_all date s e ps ≡ some (record s { written = s.written ++ map (entry date s e) ps })
unfolding append_all
append_all_lem date s e [] h = rw append-nil
append_all_lem date s e (p ∷ ps) h =
    let s' = record s { written = s.written ++ entry date s e p ∷ [] } in
    rw (append_lem date s e p h.0) (
      append_all_lem date s' e ps h.1
      ∙ ap (λ (l : List (Target × Text)). some (record s { written = l }))
          (append_assoc s.written (entry date s e p ∷ []) (map (entry date s e) ps)))

-- The appenders that an event goes to: none below the level, the logger's own, or else the root's.
unfoldable pub receivers : Logs → ℕ → LogEvent → List ℕ
receivers s a e =
    if not (leb (s.loggers a).level e.level) then [] else elim (s.loggers a).appenders [
      | p ∷ ps ↦ p ∷ ps
      | [] ↦ if not (leb (s.loggers s.root).level e.level) then [] else (s.loggers s.root).appenders
    ]

List-cases : (xs : List ℕ) → (xs ≡ []) ⊎ ((x : ℕ) × (rest : List ℕ) × (xs ≡ x ∷ rest))
List-cases [] = inl refl
List-cases (x ∷ rest) = inr (x, rest, refl)

quiet : (s : Logs) → some s ≡ some (record s { written = s.written ++ [] })
quiet s =
    ap (λ (l : List (Target × Text)). some (record s { written = l })) (sym (append-nil s.written))

root_lem :
    (date : Text → ℕ → Text) (s : Logs) (e : LogEvent)
    → (s.loggers s.root).appenders ≢ []
    → HasFormatters s
        (if not (leb (s.loggers s.root).level e.level) then [] else (s.loggers s.root).appenders)
    → log_root date s e
      ≡ some (record s {
        written =
            s.written
            ++ map (entry date s e) (
                if not (leb (s.loggers s.root).level e.level)
                then []
                else (s.loggers s.root).appenders);
      })
unfolding log_root
root_lem date s e r h = elim (Bool-cases (leb (s.loggers s.root).level e.level)) [
  | inr l ↦ rw (log_root, l) (quiet s)
  | inl l ↦ elim (List-cases (s.loggers s.root).appenders) [
    | inl n ↦ absurd (r n)
    | inr (p, ps, n) ↦ rw (log_root, l, n) (append_all_lem date s e (p ∷ ps) (rw (l, n) at h))
  ]
]

-- With an appender at the root and a formatter in each receiver, log writes to exactly the
-- receivers, in their order and each with its own formatter, and changes nothing else.
pub log_lem :
    (date : Text → ℕ → Text) (s : Logs) (a : ℕ) (e : LogEvent)
    → (s.loggers s.root).appenders ≢ []
    → HasFormatters s (receivers s a e)
    → log date s a e
      ≡ some (record s { written = s.written ++ map (entry date s e) (receivers s a e) })
unfolding log receivers
log_lem date s a e r h = elim (Bool-cases (leb (s.loggers a).level e.level)) [
  | inr l ↦ rw (log, receivers, l) (quiet s)
  | inl l ↦ elim (List-cases (s.loggers a).appenders) [
    | inr (p, ps, n) ↦
        rw (log, receivers, l, n) (append_all_lem date s e (p ∷ ps) (rw (receivers, l, n) at h))
    | inl n ↦ elim (Bool-cases (a == s.root)) [
      | inl same ↦ absurd (
          r (
            let q : a ≡ s.root = ground arith in
            ap (λ (b : ℕ). (s.loggers b).appenders) (sym q) ∙ n))
      | inr other ↦
          rw (log, receivers, l, n, other) (root_lem date s e r (rw (receivers, l, n) at h))
    ]
  ]
]

-- Where the root has no appender, an event at the root's level, logged by a logger without appenders
-- whose level it reaches, makes the root take its own spin lock a second time.
pub log_deadlock :
    (date : Text → ℕ → Text) (s : Logs) (a : ℕ) (e : LogEvent)
    → (s.loggers s.root).appenders ≡ []
    → (s.loggers a).appenders ≡ []
    → leb (s.loggers s.root).level e.level ≡ true
    → leb (s.loggers a).level e.level ≡ true
    → log date s a e ≡ none
unfolding log log_root
log_deadlock date s a e r n l k = elim (Bool-cases (a == s.root)) [
  | inl same ↦ rw (log, k, n, same)
  | inr other ↦ rw (log, k, n, other) (rw (log_root, l, r))
]
