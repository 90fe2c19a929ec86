-- ===== src/Kprintf/Rounds.antt =====
-- The rounds of `format`: as many as the format has characters are enough.
use sifar_os.Common.{
  ℕ, zero, suc, ◌+◌, ◌-◌, ◌*◌, ◌%◌, ◌^◌, ◌≤◌, ◌≡◌, refl, Bool, true, false, ◌||◌, not, List, [],
  ◌∷◌, if◌then◌else◌, ◌==◌, length, arith, if_elim,
}
use sifar_os.Kprintf.Sink.{Sink, sink_putc}
use sifar_os.Kprintf.Format.{
  Directive, convert, read_directive, read_flags, read_width, skip_length, is_digit, format_loop,
  format,
}

length-read_flags :
    (left : Bool) (pad : ℕ) (fmt : List ℕ) → length (read_flags left pad fmt).rest ≤ length fmt
unfolding read_flags
length-read_flags left pad [] = omega arith
length-read_flags left pad (c ∷ cs) =
    if_elim (λ (d : Directive). length d.rest ≤ length (c ∷ cs)) (c == b'-') _ _
      (λ e. omega (arith, length-read_flags true pad cs))
      (λ e.
        if_elim (λ (d : Directive). length d.rest ≤ length (c ∷ cs)) (c == b'0') _ _
          (λ e. omega (arith, length-read_flags left b'0' cs)) (λ e. omega arith))

length-read_width : (w : ℕ) (fmt : List ℕ) → length (read_width w fmt).1 ≤ length fmt
unfolding read_width
length-read_width w [] = omega arith
length-read_width w (c ∷ cs) =
    if_elim (λ (r : ℕ × List ℕ). length r.1 ≤ length (c ∷ cs)) (is_digit c) _ _
      (λ e. omega (arith, length-read_width ((w * 10 + (c - b'0')) % 2 ^ 32) cs)) (λ e. omega arith)

length-skip_length : (fmt : List ℕ) → length (skip_length fmt) ≤ length fmt
unfolding skip_length
length-skip_length [] = omega arith
length-skip_length (c ∷ cs) =
    if_elim (λ (r : List ℕ). length r ≤ length (c ∷ cs)) (c == b'l' || (c == b'z' || c == b'h'))
      (skip_length cs) (c ∷ cs) (λ e. omega (arith, length-skip_length cs)) (λ e. omega arith)

length-read_directive : (fmt : List ℕ) → length (read_directive fmt).rest ≤ length fmt
unfolding read_directive
length-read_directive fmt =
    let d = read_flags false b' ' fmt in
    omega (
      arith,
      length-read_flags false b' ' fmt,
      length-read_width 0 d.rest,
      length-skip_length (read_width 0 d.rest).1,
    )

next_same :
    (string_at : ℕ → List ℕ) (d : Directive) (s : Sink) (arg k : ℕ)
    (next next' : Sink → List ℕ → ℕ → Sink) (fmt : List ℕ)
    → ((t : Sink) (rest : List ℕ) (k' : ℕ)
        → suc (length rest) ≤ length fmt
        → next t rest k' ≡ next' t rest k')
    → (elim fmt [
      | [] ↦ s
      | e ∷ rest ↦
          (let (t, taken) = convert string_at s d e arg in next t rest (if taken then k + 1 else k))
    ])
      ≡ (elim fmt [
        | [] ↦ s
        | e ∷ rest ↦
            (let (t, taken) = convert string_at s d e arg in
              next' t rest (if taken then k + 1 else k))
      ])
next_same string_at d s arg k next next' [] same = refl
next_same string_at d s arg k next next' (e ∷ rest) same = same _ rest _ (omega arith)

if_same :
    (b : Bool) (x x' y y' : Sink) → x ≡ y → x' ≡ y' → (if b then x else x') ≡ (if b then y else y')
if_same true x x' y y' e e' = e
if_same false x x' y y' e e' = e'

-- Any two numbers of rounds that are at least the length of the format give the same.
rounds_same :
    (string_at : ℕ → List ℕ) (args : ℕ → ℕ) (n n' : ℕ) (s : Sink) (fmt : List ℕ) (k : ℕ)
    → length fmt ≤ n
    → length fmt ≤ n'
    → format_loop string_at args n s fmt k ≡ format_loop string_at args n' s fmt k
unfolding format_loop
rounds_same string_at args zero zero s [] k h h' = refl
rounds_same string_at args zero (suc n') s [] k h h' = refl
rounds_same string_at args (suc n) zero s [] k h h' = refl
rounds_same string_at args (suc n) (suc n') s [] k h h' = refl
rounds_same string_at args zero n' s (c ∷ cs) k h h' = absurd (omega arith)
rounds_same string_at args (suc n) zero s (c ∷ cs) k h h' = absurd (omega arith)
rounds_same string_at args (suc n) (suc n') s (c ∷ cs) k h h' =
    if_same (not (c == b'%')) _ _ _ _
      (rounds_same string_at args n n' (sink_putc s c) cs k (omega arith) (omega arith))
      (next_same string_at (read_directive cs) s (args k) k (format_loop string_at args n)
        (format_loop string_at args n') (read_directive cs).rest
        (λ t rest k' l.
          rounds_same string_at args n n' t rest k' (omega (arith, length-read_directive cs))
            (omega (arith, length-read_directive cs))))

-- `format` is its loop with any number of rounds from the length of the format on.
pub format_enough :
    (string_at : ℕ → List ℕ) (args : ℕ → ℕ) (n : ℕ) (s : Sink) (fmt : List ℕ)
    → length fmt ≤ n
    → format_loop string_at args n s fmt 0 ≡ format string_at s fmt args
unfolding format
format_enough string_at args n s fmt h =
    rounds_same string_at args n (length fmt) s fmt 0 h (omega arith)
