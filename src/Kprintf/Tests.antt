-- ===== src/Kprintf/Tests.antt =====
-- Runs of formats, and the theorems at one of them.
use sifar_os.Common.{ℕ, ◌≡◌, refl, List, [], ◌∷◌, arith, length, replicate}
use sifar_os.Kprintf.Sink.{sink_putc, room, sink_pad, digits_of, put_back, emit_number}
use sifar_os.Kprintf.Format.{
  read_flags, read_width, skip_length, read_directive, convert, format_loop, format, kprintf,
  kvsnprintf,
}
use sifar_os.Kprintf.Text.{justify, numeral, number_text}
use sifar_os.Kprintf.Whole.{conversion, format_text}
use sifar_os.Kprintf.Buffer.{TextFits, kprintf-format_text, Prints, kvsnprintf-kprintf}
use sifar_os.Kprintf.Numeral.{read_decimal, read_decimal-kprintf}

-- "<%04d>" with -7
abbrev angled : List ℕ
angled = b'<' ∷ b'%' ∷ b'0' ∷ b'4' ∷ b'd' ∷ b'>' ∷ []

abbrev no_string : ℕ → List ℕ
no_string p = []

abbrev minus_seven : ℕ → ℕ
minus_seven k = 0xFFFFFFF9

angled-TextFits : TextFits no_string angled minus_seven
unfolding format_text conversion read_directive read_flags read_width skip_length number_text
    numeral justify room
angled-TextFits = omega arith

prints_angled :
    (kprintf no_string angled minus_seven).0 ≡ b'<' ∷ b'-' ∷ b'0' ∷ b'0' ∷ b'7' ∷ b'>' ∷ []
unfolding kprintf format format_loop convert read_directive read_flags read_width skip_length
    emit_number digits_of put_back room sink_pad sink_putc
prints_angled = refl

kprintf-format_text_example : kprintf no_string angled minus_seven ≡ (
  format_text no_string minus_seven 6 angled 0,
  length (format_text no_string minus_seven 6 angled 0),
)
kprintf-format_text_example = kprintf-format_text no_string angled minus_seven angled-TextFits

kvsnprintf-kprintf_example :
    Prints
      (replicate 4 1)
      4
      (kprintf no_string angled minus_seven).0
      (kvsnprintf no_string (replicate 4 1) 4 angled minus_seven)
kvsnprintf-kprintf_example =
    kvsnprintf-kprintf no_string (replicate 4 1) 4 angled minus_seven angled-TextFits (omega arith)

read_decimal-kprintf_example :
    read_decimal (kprintf no_string (b'%' ∷ b'd' ∷ []) minus_seven).0 ≡ 0xFFFFFFF9
read_decimal-kprintf_example = read_decimal-kprintf no_string minus_seven (omega arith)
