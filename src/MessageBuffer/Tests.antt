-- ===== src/MessageBuffer/Tests.antt =====
-- Runs of the theorems on concrete buffers.
use cpp_infra.Common.{
  List, Option, [], arith, get_elem?, none, refl, replicate, some, suc, zero, ℕ, ◌++◌, ◌-◌, ◌^◌,
  ◌∷◌, ◌≡◌, ◌≢◌,
}
use cpp_infra.MessageBuffer.{
  sub64, crlf_loop, MessageBuffer, failed, received, Recv, recv, new, write, ensure_free_space,
  get_data_until_crlf,
}
use cpp_infra.MessageBuffer.Content.{Holds}
use cpp_infra.MessageBuffer.Write.{Room, ensure_free_space-Room, write-Holds}
use cpp_infra.MessageBuffer.Line.{get_data_until_crlf-Found, get_data_until_crlf_empty, Found}
use cpp_infra.MessageBuffer.Receive.{
  ensure_free_space_throws, recv-Delivered, Delivered, recv-failed,
}

-- a buffer of eight bytes that holds "a\r\nb" from its second byte on
abbrev line_bytes : List ℕ
line_bytes = b'a' ∷ b'\r' ∷ b'\n' ∷ b'b' ∷ []

abbrev with_line : MessageBuffer
with_line = record { bytes = 7 ∷ b'a' ∷ b'\r' ∷ b'\n' ∷ b'b' ∷ 0 ∷ 0 ∷ 0 ∷ []; rpos = 1; wpos = 5 }

with_line-Holds : Holds with_line line_bytes
with_line-Holds = record {
  before = 7 ∷ [];
  after = 0 ∷ 0 ∷ 0 ∷ [];
  layout = refl;
  read_at = refl;
  write_at = refl;
  small = omega arith;
}

abbrev five : List ℕ
five = 1 ∷ 2 ∷ 3 ∷ 4 ∷ 5 ∷ []

recv-Delivered_example :
    (r : Recv) × (recv (received five) with_line ≡ some r) × Delivered r 5 (line_bytes ++ five)
recv-Delivered_example =
    recv-Delivered five with_line-Holds (omega arith) (omega arith) (omega arith)

write-Holds_example :
    (b' : MessageBuffer) × (write five with_line ≡ some b') × Holds b' (line_bytes ++ five)
write-Holds_example = write-Holds five with_line-Holds (omega arith) (omega arith)

get_data_until_crlf-Found_example :
    (o : Option ℕ) × (get_data_until_crlf with_line ≡ some o) × Found line_bytes 0 o
get_data_until_crlf-Found_example = get_data_until_crlf-Found with_line-Holds (omega arith)

-- a buffer of four bytes without free space
abbrev full : MessageBuffer
full = record { bytes = 1 ∷ 2 ∷ 3 ∷ 4 ∷ []; rpos = 0; wpos = 4 }

ensure_free_space_throws_example : ensure_free_space (sub64 (2 ^ 64 - 1) 4) full ≡ none
ensure_free_space_throws_example = ensure_free_space_throws full refl refl (omega arith)

recv-failed_example : recv (failed 11) with_line ≡ none
recv-failed_example = recv-failed 11 with_line-Holds

abbrev empty_two : Holds (new 2) []
empty_two = record {
  before = [];
  after = replicate 2 0;
  layout = refl;
  read_at = refl;
  write_at = refl;
  small = omega arith;
}

two_zeros : (k : ℕ) → get_elem? {A = ℕ} (replicate 2 0) k ≢ some b'\r'
two_zeros zero e = absurd (cc e)
two_zeros (suc zero) e = absurd (cc e)
two_zeros (suc (suc k)) e = absurd (cc e)

get_data_until_crlf_empty_example : get_data_until_crlf (new 2) ≡ none
get_data_until_crlf_empty_example = get_data_until_crlf_empty empty_two two_zeros

ensure_free_space-Room_example :
    (b' : MessageBuffer) × (ensure_free_space 4 with_line ≡ some b') × Room 4 b' line_bytes
ensure_free_space-Room_example =
    ensure_free_space-Room 4 with_line-Holds (omega arith) (omega arith)

-- The line found in the bytes held has one byte.
one_line : get_data_until_crlf with_line ≡ some (some 1)
unfolding get_data_until_crlf crlf_loop
one_line = refl
