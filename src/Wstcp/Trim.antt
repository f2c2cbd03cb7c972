-- ===== src/Wstcp/Trim.antt =====
-- src/wstcp/frame.rs: the loop that cuts off the line feeds at the end of what was read.
use electrs_cash.Common.{
  ℕ, zero, suc, ◌+◌, ◌-◌, ◌%◌, ◌<◌, ◌≡◌, ◌≢◌, Bool, true, ◌||◌, List, [], ◌∷◌, ◌++◌, arith, ltb,
  length, replicate, length-append, get_elem?_middle, set_middle, replicate_snoc, length-replicate,
  get_elem?_of_length-le,
}
use mathlib.Core.List.{append_assoc}
use electrs_cash.Wstcp.Encoder.{usize_mod, trim}

trim_step :
    (f : ℕ) (ys tail : List ℕ) (b : Bool)
    → length ys + 1 < usize_mod
    → trim (suc f) (ys ++ b'\n' ∷ tail) 0 (length ys + 1) b
      ≡ trim f (ys ++ 0 ∷ tail) 0 (length ys) true
unfolding trim
trim_step f ys tail b h =
    let at : (0 + (length ys + 1) + usize_mod - 1) % usize_mod ≡ length ys = omega arith in
    let less : length ys + 1 - 1 ≡ length ys = omega arith in
    ground (arith, at, less, get_elem?_middle ys b'\n' tail, set_middle ys b'\n' 0 tail)

trim_stop :
    (f : ℕ) (ys tail : List ℕ) (c : ℕ) (b : Bool)
    → length ys + 1 < usize_mod
    → c ≢ b'\n'
    → trim (suc f) (ys ++ c ∷ tail) 0 (length ys + 1) b ≡ (ys ++ c ∷ tail, length ys + 1, b)
unfolding trim
trim_stop f ys tail c b h ne =
    let at : (0 + (length ys + 1) + usize_mod - 1) % usize_mod ≡ length ys = omega arith in
    ground (arith, at, get_elem?_middle ys c tail)

trim_none :
    (f : ℕ) (payload : List ℕ) (b : Bool)
    → length payload < usize_mod
    → trim (suc f) payload 0 0 b ≡ (payload, 0, b)
unfolding trim
trim_none f payload b h =
    ground (arith, get_elem?_of_length-le payload (usize_mod - 1) (omega arith))

-- What was read before the line feeds at its end: nothing, or bytes that do not end in one.
pub data Body : List ℕ → Type 0 where
  nothing : Body []
  ended : (ys : List ℕ) (c : ℕ) → c ≢ b'\n' → Body (ys ++ c ∷ [])

trim-Body :
    (f : ℕ) {body : List ℕ} (tail : List ℕ) (b : Bool)
    → Body body
    → length body + length tail + 1 < usize_mod
    → trim (suc f) (body ++ tail) 0 (length body) b ≡ (body ++ tail, length body, b)
trim-Body f tail b nothing h = trim_none f tail b (omega arith)
trim-Body f tail b (ended ys c ne) h =
    let long = length-append ys (c ∷ []) in
    rw (append_assoc ys (c ∷ []) tail, long) (trim_stop f ys tail c b (omega (arith, long)) ne)

-- `trim` cuts off all line feeds at the end, and reports whether there was one.
pub trim_lines :
    (k f : ℕ) {body : List ℕ} (tail : List ℕ) (b : Bool)
    → Body body
    → k < f
    → length body + k + length tail + 1 < usize_mod
    → trim f (body ++ (replicate k b'\n' ++ tail)) 0 (length body + k) b
      ≡ (body ++ (replicate k 0 ++ tail), length body, b || ltb 0 k)
trim_lines k zero tail b p h w = absurd (omega arith)
trim_lines zero (suc f) {body} tail b p h w = ground (arith, trim-Body f tail b p (omega arith))
trim_lines (suc k) (suc f) {body} tail b p h w = ground (
  arith,
  replicate_snoc k b'\n' tail,
  replicate_snoc k 0 tail,
  append_assoc body (replicate k b'\n') (b'\n' ∷ tail),
  append_assoc body (replicate k b'\n') (0 ∷ tail),
  length-append body (replicate k b'\n'),
  length-replicate {A = ℕ} k b'\n',
  trim_step f (body ++ replicate k b'\n') tail b,
  trim_lines k f {body = body} (0 ∷ tail) true p (omega arith) (omega arith),
)
