-- ===== src/Http/Names.antt =====
-- The names of the methods of src/http/http.h and their recognition in src/http/http.cpp.
use cool.Base.{
  ℕ, zero, suc, ◌+◌, ◌<◌, ◌≡◌, refl, ◌∙◌, List, [], ◌∷◌, ◌++◌, some, arith, length, get_elem?,
}
use cool.Base.Text.{Text, codes, c_str, text_eq, is_prefix}
use cool.Http.{
  methods, search, string_to_http_method, chars_to_http_method, http_method_to_chars,
  invalid_method,
}

-- Each name of a list is recognised as its number, alone and at the head of a text.
abbrev Numbered : ℕ → List Text → Type 0
Numbered i [] = Unit {0}
Numbered i (n ∷ ns) =
    ((string_to_http_method n ≡ i) × ((rest : Text) → chars_to_http_method (n ++ rest) ≡ i))
    × Numbered (suc i) ns

all-Numbered : Numbered 0 methods
unfolding string_to_http_method chars_to_http_method search text_eq is_prefix c_str
all-Numbered = (
  (refl, λ r. refl),
  (
    (refl, λ r. refl),
    (
      (refl, λ r. refl),
      (
        (refl, λ r. refl),
        (
          (refl, λ r. refl),
          (
            (refl, λ r. refl),
            (
              (refl, λ r. refl),
              (
                (refl, λ r. refl),
                (
                  (refl, λ r. refl),
                  (
                    (refl, λ r. refl),
                    (
                      (refl, λ r. refl),
                      (
                        (refl, λ r. refl),
                        (
                          (refl, λ r. refl),
                          (
                            (refl, λ r. refl),
                            (
                              (refl, λ r. refl),
                              (
                                (refl, λ r. refl),
                                (
                                  (refl, λ r. refl),
                                  (
                                    (refl, λ r. refl),
                                    (
                                      (refl, λ r. refl),
                                      (
                                        (refl, λ r. refl),
                                        (
                                          (refl, λ r. refl),
                                          (
                                            (refl, λ r. refl),
                                            (
                                              (refl, λ r. refl),
                                              (
                                                (refl, λ r. refl),
                                                (
                                                  (refl, λ r. refl),
                                                  (
                                                    (refl, λ r. refl),
                                                    (
                                                      (refl, λ r. refl),
                                                      (
                                                        (refl, λ r. refl),
                                                        (
                                                          (refl, λ r. refl),
                                                          (
                                                            (refl, λ r. refl),
                                                            (
                                                            (refl, λ r. refl),
                                                            (
                                                            (refl, λ r. refl),
                                                            (
                                                            (refl, λ r. refl),
                                                            ((refl, λ r. refl), tt),
                                                            ),
                                                            ),
                                                            ),
                                                          ),
                                                        ),
                                                      ),
                                                    ),
                                                  ),
                                                ),
                                              ),
                                            ),
                                          ),
                                        ),
                                      ),
                                    ),
                                  ),
                                ),
                              ),
                            ),
                          ),
                        ),
                      ),
                    ),
                  ),
                ),
              ),
            ),
          ),
        ),
      ),
    ),
  ),
)

Numbered-at :
    (i : ℕ) (ns : List Text) (k : ℕ) (n : Text)
    → Numbered i ns
    → get_elem? ns k ≡ some n
    → (string_to_http_method n ≡ i + k) × ((rest : Text) → chars_to_http_method (n ++ rest) ≡ i + k)
Numbered-at i [] k n h e = absurd cc
Numbered-at i (x ∷ ns) zero n h e =
    let same : x ≡ n = cc in rw (← same) (h.0.0 ∙ omega arith, λ rest. h.0.1 rest ∙ omega arith)
Numbered-at i (x ∷ ns) (suc k) n h e =
    let (a, b) = Numbered-at (suc i) ns k n h.1 e in (a ∙ omega arith, λ rest. b rest ∙ omega arith)

name_at : (ns : List Text) (m : ℕ) → m < length ns → (n : Text) × (get_elem? ns m ≡ some n)
name_at [] m h = absurd (omega arith)
name_at (x ∷ ns) zero h = (x, refl)
name_at (x ∷ ns) (suc m) h = name_at ns m (omega arith)

-- The text of each method is recognised as that method, alone and in front of any other text: no
-- name of the table hides another.
pub method_round_trip :
    (m : ℕ) (rest : Text)
    → m < 34
    → (string_to_http_method (http_method_to_chars m) ≡ m)
      × (chars_to_http_method (http_method_to_chars m ++ rest) ≡ m)
unfolding http_method_to_chars
method_round_trip m rest h =
    let (n, e) = name_at methods m h in
    let (a, b) = Numbered-at 0 methods m n all-Numbered e in
    rw e (a ∙ omega arith, b rest ∙ omega arith)

-- The M-SEARCH of a request line is not recognised, since the table's text for it has spaces.
pub m_search_unknown :
    (rest : Text) → chars_to_http_method (codes "M-SEARCH" ++ rest) ≡ invalid_method
unfolding chars_to_http_method search is_prefix c_str
m_search_unknown rest = refl
