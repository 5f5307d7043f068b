-- ===== src/Util.antt =====
-- src/util.cpp: the clocks and the backtrace. What gettimeofday answers, the number of frames that
-- backtrace stores and the texts of backtrace_symbols are arguments; `none` for the texts is a null
-- pointer. A skip that is negative is outside of the model.
use cool.Base.{
  ℕ, zero, suc, ◌+◌, ◌-◌, ◌*◌, ◌/◌, ◌%◌, ◌^◌, ◌<◌, ◌≡◌, Bool, true, false, List, [], ◌∷◌, ◌++◌,
  Option, none, some, arith, length, length-append,
}
use cool.Base.Text.{Text}

-- GetCurrentMS and GetCurrentUS, from tv_sec and tv_usec.
unfoldable pub get_current_ms : ℕ → ℕ → ℕ
get_current_ms sec usec = (sec * 1000 + usec / 1000) % 2 ^ 64

unfoldable pub get_current_us : ℕ → ℕ → ℕ
get_current_us sec usec = (sec * 1000 * 1000 + usec) % 2 ^ 64

-- The loop of backtrace that pushes the frames from index `i` on, `left` of them.
unfoldable pub push_frames : (ℕ → Text) → ℕ → ℕ → List Text → List Text
push_frames strings i zero bt = bt
push_frames strings i (suc left) bt = push_frames strings (suc i) left (bt ++ strings i ∷ [])

-- backtrace(bt, size, skip), where `s` frames were stored; the second part says whether the array was
-- freed.
unfoldable pub backtrace : List Text → ℕ → ℕ → Option (ℕ → Text) → List Text × Bool
backtrace bt s skip none = (bt, false)
backtrace bt s skip (some strings) = (push_frames strings skip (s - skip) bt, true)

unfoldable pub join_frames : Text → List Text → Text
join_frames prefix [] = []
join_frames prefix (f ∷ bt) = prefix ++ f ++ b'\n' ∷ join_frames prefix bt

-- backtrace_tostring(size, skip, prefix).
unfoldable pub backtrace_tostring : ℕ → ℕ → Text → Option (ℕ → Text) → Text
backtrace_tostring s skip prefix strings = join_frames prefix (backtrace [] s skip strings).0

length-push_frames :
    (strings : ℕ → Text) (i left : ℕ) (bt : List Text)
    → length (push_frames strings i left bt) ≡ length bt + left
unfolding push_frames
length-push_frames strings i zero bt = omega arith
length-push_frames strings i (suc left) bt = omega (
  arith,
  length-push_frames strings (suc i) left (bt ++ strings i ∷ []),
  length-append bt (strings i ∷ []),
)

-- backtrace adds the frames behind the first `skip`, none if there are no more than that.
pub length-backtrace :
    (bt : List Text) (s skip : ℕ) (strings : ℕ → Text)
    → length (backtrace bt s skip (some strings)).0 ≡ length bt + (s - skip)
unfolding backtrace
length-backtrace bt s skip strings = length-push_frames strings skip (s - skip) bt

-- The two clocks agree, up to the fraction of a millisecond, before the microseconds wrap.
pub current_us_ms :
    (sec usec : ℕ)
    → sec * 1000 * 1000 + usec < 2 ^ 64
    → get_current_us sec usec / 1000 ≡ get_current_ms sec usec
unfolding get_current_us get_current_ms
current_us_ms sec usec h = omega arith
