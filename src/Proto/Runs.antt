-- ===== src/Proto/Runs.antt =====
-- Concrete runs of the encoder in src/proto.rs, and the theorems at concrete inputs.
use tracing_perfetto_file.Common.{◌≡◌, refl, [], ◌∷◌, ◌++◌, some, arith, below_wf}
use tracing_perfetto_file.Proto.{
  write_varint, write_varint_loop, varint_field, redundant_varint_field, string_field,
  fixed64_field, finish_message, message,
}
use tracing_perfetto_file.Proto.Varint.{padded}
use tracing_perfetto_file.Proto.Fields.{
  Writes, varint_field-Writes, redundant_varint_field-Writes, string_field-Writes,
  fixed64_field-Writes,
}
use tracing_perfetto_file.Proto.Framing.{
  reserved, reserved_token, finish_message_lem, message-Writes,
}
use tracing_perfetto_file.Proto.Wire
use native.Mathlib.Decide.{dec_lt}

write_300 : write_varint 300 [] ≡ 0xac ∷ 0x02 ∷ []
unfolding write_varint write_varint_loop below_wf dec_lt
write_300 = refl

varint_field-Writes_example : Writes (Wire.varint 9 300 Wire.end) (λ b. some (varint_field b 9 300))
varint_field-Writes_example = varint_field-Writes 9 (omega arith) 300 (omega arith)

redundant_varint_field-Writes_example :
    Writes (Wire.varint 11 300 Wire.end) (λ b. some (redundant_varint_field b 11 300))
redundant_varint_field-Writes_example =
    redundant_varint_field-Writes 11 (omega arith) 300 (omega arith)

fixed64_field-Writes_example :
    Writes (Wire.fixed64 47 300 Wire.end) (λ b. some (fixed64_field b 47 300))
fixed64_field-Writes_example = fixed64_field-Writes 47 (omega arith) 300 (omega arith)

string_field-Writes_example :
    Writes (Wire.string 2 (104 ∷ 105 ∷ []) Wire.end) (λ b. some (string_field b 2 (104 ∷ 105 ∷ [])))
string_field-Writes_example = string_field-Writes 2 (omega arith) (104 ∷ 105 ∷ []) (omega arith)

message-Writes_example :
    Writes
      (Wire.message 11 (Wire.varint 9 300 Wire.end) Wire.end)
      (λ b. message b 11 λ m. some (varint_field m 9 300))
message-Writes_example = message-Writes 11 (omega arith) (omega arith) varint_field-Writes_example

finish_message_lem_example :
    finish_message
      (reserved (1 ∷ []) (7 ∷ 8 ∷ []) 5 5 5 5)
      (reserved_token (1 ∷ []) (7 ∷ 8 ∷ []) 5 5 5 5)
    ≡ some (record { buf = 1 ∷ (padded 3 2 ++ 7 ∷ 8 ∷ []) })
finish_message_lem_example = finish_message_lem (1 ∷ []) (7 ∷ 8 ∷ []) 5 5 5 5 (omega arith)
