-- ===== src/AppData.antt =====
-- web_models/app_data.cpp: a message in packets, and back. `get_buff` of data_managers/
-- DataSink.cpp calls the second of the two functions, and nothing calls it or the first.
pub mod Assembling
pub mod Buffering
mod Tests
use reliable_data_transfer.Base.{
  ℕ, zero, suc, ◌+◌, ◌-◌, ◌^◌, min, Bool, true, false, ◌||◌, List, [], ◌∷◌, ◌++◌, Option, none,
  some, ltb, ◌==◌, if◌then◌else◌, ◌>>=◌, u16, u32, length, take, drop,
}
use reliable_data_transfer.DataManagers.{DataSink}
use reliable_data_transfer.Packet.{Packet, zero_bytes, memcpy, pck_data_size, pck_header_size}

pub record AppData : Type 0 where
  pub payload : List ℕ
  pub len_data : ℕ

-- `while (rem > 0)`: each round takes a byte at least, so `rem` is fuel enough. The header of the
-- packet is what stood in memory before, `garbage sent`, and its length is added to.
unfoldable pub break_from : ℕ → (ℕ → Packet) → List ℕ → (sent rem : ℕ) → Option (List Packet)
break_from zero garbage payload sent rem = some []
break_from (suc fuel) garbage payload sent rem = elim (rem == 0) [
  | true ↦ some []
  | false ↦
      let min_size = min pck_data_size rem in
      memcpy (zero_bytes pck_data_size) (drop sent payload) min_size >>= λ bytes.
      let pack = record (garbage sent) {
        len = u16 (Packet.len (garbage sent) + min_size);
        payload = bytes;
      } in
      break_from fuel garbage payload (u32 (sent + min_size)) (rem - min_size) >>= λ pckts.
      some (pack ∷ pckts)
]

unfoldable pub break_app_message : (ℕ → Packet) → AppData → Option (List Packet)
break_app_message garbage message =
    break_from (u32 message.len_data) garbage message.payload 0 (u32 message.len_data)

-- `len += pckts[i]->len - PCK_HEADER_SIZE` for each packet, on 32 bits.
unfoldable pub message_length : List Packet → ℕ → ℕ
message_length [] len = len
message_length (pack ∷ pckts) len =
    message_length pckts (u32 (len + u32 (pack.len + 2 ^ 32 - pck_header_size)))

-- The copies behind each other: `memcpy` leaves the packet where its length is below that of a
-- header or beyond that of a datagram.
unfoldable pub copies : List Packet → Option (List ℕ)
copies [] = some []
copies (pack ∷ pckts) =
    let rest =
      copies pckts >>= λ bytes. some (take (pack.len - pck_header_size) pack.payload ++ bytes) in
    if ltb pack.len pck_header_size || ltb (pck_data_size + pck_header_size) pack.len
    then none
    else rest

-- The copies leave the new array if its length has wrapped.
unfoldable pub assemble_app_message : List Packet → Option AppData
assemble_app_message pckts = copies pckts >>= λ bytes.
    let len = message_length pckts 0 in
    if ltb len (length bytes) then none else some (record { payload = bytes; len_data = len })

-- `DataSink::get_buff`.
unfoldable pub get_buff : DataSink → Option AppData
get_buff sink = assemble_app_message sink.packets
