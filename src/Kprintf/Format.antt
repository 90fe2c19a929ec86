-- ===== src/Kprintf/Format.antt =====
-- `format` and its callers. The variable arguments are the words that `va_arg` reads, by their
-- index, and a string argument is a pointer that `string_at` reads.
use sifar_os.Common.{
  ℕ, zero, suc, ◌+◌, ◌-◌, ◌*◌, ◌%◌, ◌^◌, Bool, true, false, ◌&&◌, ◌||◌, not, none, some, List, [],
  ◌∷◌, if◌then◌else◌, leb, ◌==◌, set, length, min,
}
use sifar_os.Kprintf.Sink.{Sink, sink_putc, emit_string, emit_number}

-- What stands between a '%' and its letter, and the format from the letter on.
pub record Directive : Type 0 where
  pub left : Bool
  pub pad : ℕ
  pub width : ℕ
  pub rest : List ℕ

-- The loop over '-' and '0'.
unfoldable pub read_flags : Bool → ℕ → List ℕ → Directive
read_flags left pad [] = record { left = left; pad = pad; width = 0; rest = [] }
read_flags left pad (c ∷ cs) =
    let dash = read_flags true pad cs in
    let nought = read_flags left b'0' cs in
    if c == b'-'
    then dash
    else if c == b'0'
    then nought
    else record { left = left; pad = pad; width = 0; rest = c ∷ cs }

abbrev pub is_digit : ℕ → Bool
is_digit c = leb b'0' c && leb c b'9'

-- `width` is an `int`, as a word of 32 bits: a number from 2 ^ 31 on overflows, which is taken to
-- wrap.
unfoldable pub read_width : ℕ → List ℕ → ℕ × List ℕ
read_width w [] = (w, [])
read_width w (c ∷ cs) =
    let more = read_width ((w * 10 + (c - b'0')) % 2 ^ 32) cs in
    if is_digit c then more else (w, c ∷ cs)

unfoldable pub skip_length : List ℕ → List ℕ
skip_length [] = []
skip_length (c ∷ cs) =
    let more = skip_length cs in if c == b'l' || (c == b'z' || c == b'h') then more else c ∷ cs

unfoldable pub read_directive : List ℕ → Directive
unfolding read_flags read_width
read_directive fmt =
    let d = read_flags false b' ' fmt in
    let w = read_width 0 d.rest in record d { width = w.0; rest = skip_length w.1 }

-- `str ? str : "(null)"`
abbrev pub argument_string : (ℕ → List ℕ) → ℕ → List ℕ
argument_string string_at p =
    if p == 0 then b'(' ∷ b'n' ∷ b'u' ∷ b'l' ∷ b'l' ∷ b')' ∷ [] else string_at p

-- One case of the `switch`: the sink, and whether an argument was taken.
unfoldable pub convert : (ℕ → List ℕ) → Sink → Directive → ℕ → ℕ → Sink × Bool
convert string_at s d c arg =
    if c == b'c'
    then (sink_putc s (arg % 256), true)
    else if c == b's'
    then (emit_string s (argument_string string_at arg) d.width d.left b' ', true)
    else if c == b'd' || c == b'i'
    then (emit_number s arg 10 true false d.width d.left d.pad, true)
    else if c == b'u'
    then (emit_number s arg 10 false false d.width d.left d.pad, true)
    else if c == b'x'
    then (emit_number s arg 16 false false d.width d.left d.pad, true)
    else if c == b'X'
    then (emit_number s arg 16 false true d.width d.left d.pad, true)
    else if c == b'o'
    then (emit_number s arg 8 false false d.width d.left d.pad, true)
    else if c == b'p'
    then (emit_number (sink_putc (sink_putc s b'0') b'x') arg 16 false false 8 false b'0', true)
    else if c == b'%'
    then (sink_putc s b'%', false)
    else (sink_putc (sink_putc s b'%') c, false)

-- The loop of `format`, with `k` arguments taken. A round takes at least one character, so as many
-- rounds as the format has characters are enough.
unfoldable pub format_loop : (ℕ → List ℕ) → (ℕ → ℕ) → ℕ → Sink → List ℕ → ℕ → Sink
format_loop string_at args zero s fmt k = s
format_loop string_at args (suc n) s [] k = s
format_loop string_at args (suc n) s (c ∷ cs) k =
    let d = read_directive cs in
    let plain = format_loop string_at args n (sink_putc s c) cs k in
    if not (c == b'%') then plain else elim d.rest [
      | [] ↦ s
      | e ∷ rest ↦
          (let (t, taken) = convert string_at s d e (args k) in
            format_loop string_at args n t rest (if taken then k + 1 else k))
    ]

unfoldable pub format : (ℕ → List ℕ) → Sink → List ℕ → (ℕ → ℕ) → Sink
unfolding format_loop
format string_at s fmt args = format_loop string_at args (length fmt) s fmt 0

-- `kprintf`: what is written to the console, and the result.
unfoldable pub kprintf : (ℕ → List ℕ) → List ℕ → (ℕ → ℕ) → List ℕ × ℕ
kprintf string_at fmt args =
    let s =
      format string_at (record { buf = none; size = 0; written = 0; console = [] }) fmt args in
    (s.console, s.written)

abbrev pub terminate : ℕ → ℕ → List ℕ → List ℕ
terminate size written buf = if size == 0 then buf else set buf (min written (size - 1)) 0

-- `kvsnprintf` and `ksnprintf`: the buffer and the result.
unfoldable pub kvsnprintf : (ℕ → List ℕ) → List ℕ → ℕ → List ℕ → (ℕ → ℕ) → List ℕ × ℕ
kvsnprintf string_at buf size fmt args =
    let s =
      format string_at (record { buf = some buf; size = size; written = 0; console = [] }) fmt
        args in
    (terminate size s.written (elim s.buf [ none ↦ buf | some b ↦ b ]), s.written)
