-- ===== src/Protocol/Samples.antt =====
-- A concrete stream that meets the laws of the Kaitai runtime's: the cursor itself.
use void_protocol_oss.Base.{◌≡◌, refl, Option, none, some}
use void_protocol_oss.Base.Ints.{signed}
use void_protocol_oss.Base.Words.{le_value, be_value}
use void_protocol_oss.Protocol.Kaitai.{Kaitai, Cursor, at_offset, seen, window, word}

pub same_view : {A : Type 0} (x : Option (A × Cursor)) → seen (λ c. c) x ≡ x
same_view none = refl
same_view (some (a, c)) = refl

abbrev pub sample_kaitai : Kaitai
sample_kaitai = record {
  Stream = Cursor;
  new_stream = λ bs. record { content = bs; offset = 0 };
  read_bytes = λ n. window n (word n (λ b. b));
  read_u1 = window 1 (word 1 le_value);
  read_u2be = window 2 (word 2 be_value);
  read_u4be = window 4 (word 4 be_value);
  read_u2le = window 2 (word 2 le_value);
  read_u4le = window 4 (word 4 le_value);
  read_u8le = window 8 (word 8 le_value);
  read_s2le = window 2 (word 2 (λ b. signed 0x8000 (le_value b)));
  read_s4le = window 4 (word 4 (λ b. signed 0x80000000 (le_value b)));
  read_f4le = window 4 (word 4 le_value);
  read_f8le = window 8 (word 8 le_value);
  pos = λ c. some (c.offset, c);
  seek_start = λ n c. some (tt, at_offset n c);
  view = λ c. c;
  new_lem = λ bs. refl;
  bytes_lem = λ n s. same_view (window n (word n (λ b. b)) s);
  u1_lem = λ s. same_view (window 1 (word 1 le_value) s);
  u2be_lem = λ s. same_view (window 2 (word 2 be_value) s);
  u4be_lem = λ s. same_view (window 4 (word 4 be_value) s);
  u2le_lem = λ s. same_view (window 2 (word 2 le_value) s);
  u4le_lem = λ s. same_view (window 4 (word 4 le_value) s);
  u8le_lem = λ s. same_view (window 8 (word 8 le_value) s);
  s2le_lem = λ s. same_view (window 2 (word 2 (λ b. signed 0x8000 (le_value b))) s);
  s4le_lem = λ s. same_view (window 4 (word 4 (λ b. signed 0x80000000 (le_value b))) s);
  f4le_lem = λ s. same_view (window 4 (word 4 le_value) s);
  f8le_lem = λ s. same_view (window 8 (word 8 le_value) s);
  pos_lem = λ s. refl;
  seek_lem = λ n s. refl;
}
