-- ===== src/Procedure.antt =====
-- include/net/packetProcedure.hpp: the handlers of a service by packet id, its cipher handlers, and
-- the dispatch of what a session received. `C` is a pair of cipher functions, which are only stored.
pub mod Registering
pub mod Written
pub mod Pieces
use mlnsdk.Base.{
  ℕ, Bool, true, false, Option, none, some, List, [], ◌∷◌, ltb, if◌then◌else◌, length, replicate,
  get_elem?, set, lookup,
}
use mlnsdk.Base.Outcome.{Outcome, ok, fault, or_fault}
use mlnsdk.ByteStream.{ByteStream, PacketManipulator}
use mlnsdk.Packet.Parser.{Handler, PacketMap, Parsed, Ending, returned, bad_call, broken, running}
use mlnsdk.Session.{Session, is_open, dec_read_handler_pending}

-- `CustomPacketParser`, given the maps of the instance and of the static handlers.
abbrev pub CustomPacketParser : Type 0
CustomPacketParser = Session → ByteStream → PacketMap Session → PacketMap Session → Parsed Session

-- `PacketHandlerTy_headerBody`, given the bytes at the pointer.
abbrev pub HeaderBodyHandler : Type 0
HeaderBodyHandler = Session → List ℕ → ByteStream → Session × ByteStream × Bool

pub record Procedure (C : Type 0) : Type 0 where
  pub instance_elements : PacketMap Session
  pub static_elements : PacketMap Session
  pub user_cipher_type : ℕ
  pub cipher_handlers : List (Option (ℕ × C))
  pub msg_handler_header_body : Option HeaderBodyHandler
  pub packet_parser : Option CustomPacketParser
  pub manipulator : Option PacketManipulator

-- `UINT8_MAX`
abbrev pub cipher_count : ℕ
cipher_count = 255

-- `insert` of `unordered_map`: a key that is there keeps its value.
unfoldable pub insert : {V : Type 0} → ℕ → V → List (ℕ × V) → List (ℕ × V) × Bool
insert k v m = elim (lookup k m) [ none ↦ ((k, v) ∷ m, true) | some _ ↦ (m, false) ]

-- The parser changes the session's stream, which the two share.
unfoldable pub after_parse : Parsed Session → Session × Ending
after_parse r =
    let s = record r.world { recv_stream = some r.stream } in
    elim r.ending [
      | returned b ↦ (dec_read_handler_pending s, returned b)
      | bad_call ↦ (s, bad_call)
      | broken ↦ (s, broken)
      | running ↦ (s, running)
    ]

module _ {C : Type 0} where
  unfoldable pub new_procedure : Option CustomPacketParser → Option PacketManipulator → Procedure C
  new_procedure parser manip = record {
    instance_elements = [];
    static_elements = [];
    user_cipher_type = 0;
    cipher_handlers = replicate cipher_count none;
    msg_handler_header_body = none;
    packet_parser = parser;
    manipulator = manip;
  }

  -- `registPacket(packetId, fn)`
  unfoldable pub regist_packet : ℕ → Handler Session → Procedure C → Procedure C × Bool
  unfolding insert
  regist_packet id fn p =
      let (m, inserted) = insert id fn p.static_elements in
      (record p { static_elements = m }, inserted)

  -- `registPacket(packetId, func, listener)`
  unfoldable pub regist_member_packet : ℕ → Handler Session → Procedure C → Procedure C × Bool
  unfolding insert
  regist_member_packet id fn p =
      let (m, inserted) = insert id fn p.instance_elements in
      (record p { instance_elements = m }, inserted)

  unfoldable pub set_user_cipher_type : ℕ → Procedure C → Procedure C
  set_user_cipher_type cipher_type p = record p { user_cipher_type = cipher_type }

  unfoldable pub set_cipher : ℕ → C → Procedure C → Outcome (Procedure C)
  unfolding set_user_cipher_type
  set_cipher enc_type functions p =
      if ltb enc_type (length p.cipher_handlers)
      then ok (
          set_user_cipher_type enc_type (record p {
            cipher_handlers = set p.cipher_handlers enc_type (some (enc_type, functions));
          }))
      else fault

  unfoldable pub get_cipher_handler : ℕ → Procedure C → Outcome (Option (ℕ × C))
  get_cipher_handler enc_type p = or_fault (get_elem? p.cipher_handlers enc_type)

  unfoldable pub set_msg_handler_header_body : HeaderBodyHandler → Procedure C → Procedure C
  set_msg_handler_header_body func p = record p { msg_handler_header_body = some func }

  unfoldable pub get_msg_handler_header_body : Procedure C → Option HeaderBodyHandler
  get_msg_handler_header_body p = p.msg_handler_header_body

  unfoldable pub get_user_cipher_type : Procedure C → ℕ
  get_user_cipher_type p = p.user_cipher_type

  unfoldable pub get_manip : Procedure C → Option PacketManipulator
  get_manip p = p.manipulator

  -- An exception of the parser leaves the pending count as it is.
  unfoldable pub dispatch : Procedure C → Session → ByteStream → Session × Ending
  unfolding after_parse
  dispatch p s packet =
      if is_open s.status
      then elim p.packet_parser [
        | none ↦ (dec_read_handler_pending s, returned false)
        | some parse ↦ after_parse (parse s packet p.instance_elements p.static_elements)
      ]
      else (s, returned false)
