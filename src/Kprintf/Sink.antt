-- ===== src/Kprintf/Sink.antt =====
-- `struct sink`, and the output of characters, strings and numbers.
use sifar_os.Common.{
  ℕ, zero, suc, ◌+◌, ◌-◌, ◌/◌, ◌%◌, ◌^◌, Bool, ◌&&◌, not, Option, none, some, List, [], ◌∷◌, ◌++◌,
  if◌then◌else◌, leb, ltb, ◌==◌, set, get_or, length,
}
use sifar_os.Str.{strlen}

-- `buf` is none for output to the console, whose text so far is `console`.
pub record Sink : Type 0 where
  pub buf : Option (List ℕ)
  pub size : ℕ
  pub written : ℕ
  pub console : List ℕ

unfoldable pub sink_putc : Sink → ℕ → Sink
sink_putc s c =
    let next = (s.written + 1) % 2 ^ 32 in
    elim s.buf [
      | none ↦ record s { console = s.console ++ c ∷ []; written = next }
      | some b ↦ record s {
        buf = some (if ltb next s.size then set b s.written c else b);
        written = next;
      }
    ]

unfoldable pub sink_pad : Sink → ℕ → ℕ → Sink
sink_pad s pad zero = s
sink_pad s pad (suc n) = sink_pad (sink_putc s pad) pad n

-- `while (*str) sink_putc(s, *str++)`
unfoldable pub put_string : Sink → List ℕ → Sink
put_string s [] = s
put_string s (c ∷ cs) = put_string (sink_putc s c) cs

-- `width - len` as the count that `sink_pad` is given: a difference of `int`s, which wraps, and of
-- which a negative one pads nothing.
unfoldable pub room : ℕ → ℕ → ℕ
room width len =
    let count = (width + (2 ^ 32 - len % 2 ^ 32)) % 2 ^ 32 in
    if leb (2 ^ 31) count then 0 else count

unfoldable pub emit_string : Sink → List ℕ → ℕ → Bool → ℕ → Sink
emit_string s str width left pad =
    let len = strlen str in
    let padded = if left then s else sink_pad s pad (room width len) in
    let put = put_string padded str in if left then sink_pad put b' ' (room width len) else put

-- `digits[value]`
abbrev pub digit_char : Bool → ℕ → ℕ
digit_char upper v =
    if ltb v 10 then b'0' + v else if upper then b'A' + (v - 10) else b'a' + (v - 10)

-- The loop that fills `tmp`, lowest digit first, at most `n + 1` of them.
unfoldable pub digits_of : ℕ → ℕ → ℕ → Bool → List ℕ
digits_of zero value base upper = digit_char upper (value % base) ∷ []
digits_of (suc n) value base upper =
    let rest = digits_of n (value / base) base upper in
    digit_char upper (value % base) ∷ (if value / base == 0 then [] else rest)

-- `while (i--) sink_putc(s, tmp[i])`
unfoldable pub put_back : Sink → List ℕ → ℕ → Sink
put_back s tmp zero = s
put_back s tmp (suc i) = put_back (sink_putc s (get_or tmp i 0)) tmp i

-- The end of `emit_number`, from the padding on.
abbrev pub emit_digits : Sink → List ℕ → ℕ → ℕ → ℕ → Bool → ℕ → Sink
emit_digits s tmp i written width left pad =
    let padded = if left then s else sink_pad s pad (room width i) in
    let put = put_back padded tmp i in if left then sink_pad put b' ' (room width written) else put

abbrev pub is_negative : ℕ → Bool → Bool
is_negative value signed = signed && leb (2 ^ 31) value

-- `tmp`, which has 36 bytes.
abbrev pub number_chars : ℕ → ℕ → Bool → Bool → List ℕ
number_chars value base signed upper =
    if is_negative value signed
    then digits_of 34 ((2 ^ 32 - value) % 2 ^ 32) base upper ++ b'-' ∷ []
    else digits_of 34 value base upper

-- `width` is an `int` as a word of 32 bits, which `width--` may take to -1.
unfoldable pub emit_number : Sink → ℕ → ℕ → Bool → Bool → ℕ → Bool → ℕ → Sink
emit_number s value base signed upper width left pad =
    let tmp = number_chars value base signed upper in
    let i = length tmp in
    if not left && (pad == b'0' && is_negative value signed)
    then emit_digits (sink_putc s b'-') tmp (i - 1) i ((width + (2 ^ 32 - 1)) % 2 ^ 32) left pad
    else emit_digits s tmp i i width left pad
