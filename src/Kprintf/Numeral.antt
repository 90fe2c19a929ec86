-- ===== src/Kprintf/Numeral.antt =====
-- Numbers read back from what `kprintf` prints, and the rounds that a format takes.
use sifar_os.Common.{
  ℕ, zero, suc, ◌+◌, ◌-◌, ◌*◌, ◌/◌, ◌%◌, ◌^◌, ◌<◌, ◌≤◌, ◌≡◌, refl, sym, ap, ◌∙◌, Bool, true, false,
  List, [], ◌∷◌, ◌++◌, if◌then◌else◌, leb, ltb, ◌==◌, length, arith, subst, Bool-cases, inl, inr,
  replicate, if_elim, length-append,
}
use sifar_os.Kprintf.Sink.{digit_char, room}
use sifar_os.Kprintf.Format.{kprintf, read_directive, read_flags, read_width, skip_length}
use sifar_os.Kprintf.Text.{numeral, number_text, justify}
use sifar_os.Kprintf.Whole.{format_text, conversion}
use sifar_os.Kprintf.Buffer.{kprintf-format_text, append_nil}

-- The value of a digit, and of a row of them in a base after a first part.
abbrev pub digit_value : ℕ → ℕ
digit_value c = if ltb c b'A' then c - b'0' else if ltb c b'a' then c - b'A' + 10 else c - b'a' + 10

unfoldable pub read_digits : ℕ → ℕ → List ℕ → ℕ
read_digits base n [] = n
read_digits base n (c ∷ cs) = read_digits base (n * base + digit_value c) cs

read_digits-append :
    (base n : ℕ) (xs : List ℕ) (c : ℕ)
    → read_digits base n (xs ++ c ∷ []) ≡ read_digits base n xs * base + digit_value c
unfolding read_digits
read_digits-append base n [] c = refl
read_digits-append base n (x ∷ xs) c = read_digits-append base (n * base + digit_value x) xs c

digit_value-digit_char : (upper : Bool) (v : ℕ) → v < 16 → digit_value (digit_char upper v) ≡ v
digit_value-digit_char true v h = ground arith
digit_value-digit_char false v h = ground arith

-- 2 to the power `n + 1`, which `n + 1` digits reach in every base.
abbrev reach : ℕ → ℕ
reach zero = 2
reach (suc n) = 2 * reach n

-- What is used of a base from 2 to 16.
module _ (base : ℕ) (small : (v : ℕ) → v % base < 16) (half : (v : ℕ) → v / base ≤ v / 2)
    (parts : (v : ℕ) → v / base * base + v % base ≡ v) where
  last_digit :
      (v n : ℕ) (upper : Bool)
      → n ≡ v / base
      → n * base + digit_value (digit_char upper (v % base)) ≡ v
  last_digit v n upper e =
      ap (λ x. x * base + digit_value (digit_char upper (v % base))) e
      ∙ (ap (λ d. v / base * base + d) (digit_value-digit_char upper (v % base) (small v))
          ∙ parts v)

  -- The number is the value of its digits.
  read_digits-numeral :
      (n v : ℕ) (upper : Bool) → v < reach n → read_digits base 0 (numeral n v base upper) ≡ v
  unfolding numeral read_digits
  read_digits-numeral zero v upper h = last_digit v 0 upper (omega (arith, half v))
  read_digits-numeral (suc n) v upper h =
      let high : read_digits base 0 (numeral n (v / base) base upper) ≡ v / base =
        read_digits-numeral n (v / base) upper (omega (arith, half v)) in
      read_digits-append base 0 (if v / base == 0 then [] else numeral n (v / base) base upper)
        (digit_char upper (v % base))
      ∙ last_digit v _ upper (
          if_elim (λ z. read_digits base 0 z ≡ v / base) (v / base == 0) _ _ (λ e. ground arith)
            (λ e. high))

-- A decimal number with an optional sign, as a pattern of 32 bits.
unfoldable pub read_decimal : List ℕ → ℕ
read_decimal [] = 0
read_decimal (c ∷ cs) =
    if c == b'-' then (2 ^ 32 - read_digits 10 0 cs) % 2 ^ 32 else read_digits 10 0 (c ∷ cs)

decimal : (v : ℕ) → v < 2 ^ 32 → read_digits 10 0 (numeral 34 v 10 false) ≡ v
decimal v h =
    read_digits-numeral 10 (λ v. omega arith) (λ v. omega arith) (λ v. omega arith) 34 v false
      (omega arith)

-- A numeral does not begin with a sign.
unsigned : List ℕ → Bool
unsigned [] = true
unsigned (c ∷ cs) = leb b'0' c

unsigned-append :
    (xs : List ℕ) (c : ℕ) → b'0' ≤ c → unsigned xs ≡ true → unsigned (xs ++ c ∷ []) ≡ true
unfolding unsigned
unsigned-append [] c h e = ground arith
unsigned-append (x ∷ xs) c h e = e

unsigned-numeral : (n v : ℕ) → unsigned (numeral n v 10 false) ≡ true
unfolding numeral unsigned
unsigned-numeral zero v = ground arith
unsigned-numeral (suc n) v =
    unsigned-append (if v / 10 == 0 then [] else numeral n (v / 10) 10 false)
      (digit_char false (v % 10)) (ground arith)
      (if_elim (λ z. unsigned z ≡ true) (v / 10 == 0) _ _ (λ e. refl)
        (λ e. unsigned-numeral n (v / 10)))

read_decimal-unsigned : (xs : List ℕ) → unsigned xs ≡ true → read_decimal xs ≡ read_digits 10 0 xs
unfolding read_decimal unsigned read_digits
read_decimal-unsigned [] e = refl
read_decimal-unsigned (x ∷ xs) e = ground arith

length-numeral : (n v : ℕ) → length (numeral n v 10 false) ≤ n + 1
unfolding numeral
length-numeral zero v = omega arith
length-numeral (suc n) v =
    let high : length (if v / 10 == 0 then [] else numeral n (v / 10) 10 false) ≤ n + 1 =
      if_elim (λ z. length z ≤ n + 1) (v / 10 == 0) [] (numeral n (v / 10) 10 false)
        (λ e. omega arith) (λ e. length-numeral n (v / 10)) in
    omega (
      arith,
      length-append (if v / 10 == 0 then [] else numeral n (v / 10) 10 false)
          (digit_char false (v % 10) ∷ []),
      high,
    )

-- What `%d` prints.
abbrev decimal_text : ℕ → List ℕ
decimal_text v =
    if leb (2 ^ 31) v
    then b'-' ∷ numeral 34 ((2 ^ 32 - v) % 2 ^ 32) 10 false
    else numeral 34 v 10 false

-- Where nothing wraps, the padding fills the text up to the width.
pub room_below : (width n : ℕ) → width < 2 ^ 31 → n < 2 ^ 31 → room width n ≡ width - n
unfolding room
room_below width n h k = ground arith

justify_zero :
    (pad : ℕ) (text : List ℕ) → length text < 2 ^ 31 → justify false pad 0 text ++ [] ≡ text
unfolding justify
justify_zero pad text h =
    let e : room 0 (length text) ≡ 0 = room_below 0 (length text) (omega arith) h ∙ omega arith in
    append_nil _ ∙ ap (λ n. replicate n pad ++ text) e

number_text_decimal : (v : ℕ) → number_text v 10 true false 0 false b' ' ++ [] ≡ decimal_text v
unfolding number_text
number_text_decimal v =
    both (leb (2 ^ 31) v) _ _ (omega (arith, length-numeral 34 ((2 ^ 32 - v) % 2 ^ 32)))
      (omega (arith, length-numeral 34 v))
  where
    both :
        (b : Bool) (x y : List ℕ)
        → length x < 2 ^ 31
        → length y < 2 ^ 31
        → (if b then justify false b' ' 0 x else justify false b' ' 0 y) ++ []
          ≡ (if b then x else y)
    both true x y h k = justify_zero b' ' x h
    both false x y h k = justify_zero b' ' y k

format_text_decimal :
    (string_at : ℕ → List ℕ) (args : ℕ → ℕ)
    → format_text string_at args 2 (b'%' ∷ b'd' ∷ []) 0 ≡ decimal_text (args 0)
unfolding format_text conversion read_directive read_flags read_width skip_length
format_text_decimal string_at args = number_text_decimal (args 0)

-- `%d` prints every word such that it is read back, as a pattern of 32 bits.
pub read_decimal-kprintf :
    (string_at : ℕ → List ℕ) (args : ℕ → ℕ)
    → args 0 < 2 ^ 32
    → read_decimal (kprintf string_at (b'%' ∷ b'd' ∷ []) args).0 ≡ args 0
unfolding read_decimal
read_decimal-kprintf string_at args h =
    let e = format_text_decimal string_at args in
    ap (λ (r : List ℕ × ℕ). read_decimal r.0)
      (kprintf-format_text string_at (b'%' ∷ b'd' ∷ []) args short)
    ∙ (ap read_decimal e ∙ elim (Bool-cases (leb (2 ^ 31) (args 0))) [
      | inl low ↦ ground (arith, decimal ((2 ^ 32 - args 0) % 2 ^ 32) (omega arith))
      | inr high ↦ ground (
        arith,
        read_decimal-unsigned (numeral 34 (args 0) 10 false) (unsigned-numeral 34 (args 0)),
        decimal (args 0) h,
      )
    ])
  where
    short : length (format_text string_at args 2 (b'%' ∷ b'd' ∷ []) 0) < 2 ^ 32
    short =
        subst (λ z. length z < 2 ^ 32) (sym (format_text_decimal string_at args))
          (if_elim (λ z. length z < 2 ^ 32) (leb (2 ^ 31) (args 0))
            (b'-' ∷ numeral 34 ((2 ^ 32 - args 0) % 2 ^ 32) 10 false) (numeral 34 (args 0) 10 false)
            (λ e. omega (arith, length-numeral 34 ((2 ^ 32 - args 0) % 2 ^ 32)))
            (λ e. omega (arith, length-numeral 34 (args 0))))
