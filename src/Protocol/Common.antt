-- ===== src/Protocol/Common.antt =====
-- tig_common_types.go: the shared fields and the enumerations. An enumeration is an int, of which
-- `…_is_defined` tells the named values.
use void_protocol_oss.Base.{ℕ, Bool, ◌||◌, ltb, ◌==◌}
use void_protocol_oss.Base.Bytes.{Bytes}
use void_protocol_oss.Base.Ints.{ℤ}
use void_protocol_oss.Protocol.Kaitai.{Kaitai, Parser, pure, ◌>>=◌}

abbrev pub AssetId : Type 0
AssetId = ℕ

abbrev pub asset_id_is_defined : AssetId → Bool
asset_id_is_defined v = v == 1

abbrev pub CmdCode : Type 0
CmdCode = ℕ

abbrev pub cmd_code_is_defined : CmdCode → Bool
cmd_code_is_defined v = (v == 1) || (v == 255)

abbrev pub PacketTypeId : Type 0
PacketTypeId = ℕ

abbrev pub packet_type_id_is_defined : PacketTypeId → Bool
packet_type_id_is_defined v = (v == 0) || (v == 1)

abbrev pub SettlementStatus : Type 0
SettlementStatus = ℕ

abbrev pub settlement_status_is_defined : SettlementStatus → Bool
settlement_status_is_defined v = (v == 1) || (v == 255)

abbrev pub SysState : Type 0
SysState = ℕ

abbrev pub sys_state_is_defined : SysState → Bool
sys_state_is_defined v = ltb v 7

pub record Ed25519Signature : Type 0 where
  pub raw : Bytes

pub record X25519PublicKey : Type 0 where
  pub raw : Bytes

pub record GpsFixedPoint : Type 0 where
  pub latitude : ℤ
  pub longitude : ℤ

pub record RelayOps : Type 0 where
  pub azimuth : ℕ
  pub elevation : ℕ
  pub frequency : ℕ
  pub duration_ms : ℕ

pub record Vector3d : Type 0 where
  pub x : ℕ
  pub y : ℕ
  pub z : ℕ

pub record Vector3f : Type 0 where
  pub x : ℕ
  pub y : ℕ
  pub z : ℕ

module _ (k : Kaitai) where
  unfoldable pub read_ed25519_signature : Parser k.Stream Ed25519Signature
  read_ed25519_signature = do raw ← k.read_bytes 64; pure (record { raw = raw })

  unfoldable pub read_gps_fixed_point : Parser k.Stream GpsFixedPoint
  read_gps_fixed_point = do
    latitude ← k.read_s4le
    longitude ← k.read_s4le
    pure (record { latitude = latitude; longitude = longitude })

  unfoldable pub read_relay_ops : Parser k.Stream RelayOps
  read_relay_ops = do
    azimuth ← k.read_u2le
    elevation ← k.read_u2le
    frequency ← k.read_u4le
    duration_ms ← k.read_u4le
    pure (record {
      azimuth = azimuth;
      elevation = elevation;
      frequency = frequency;
      duration_ms = duration_ms;
    })

  unfoldable pub read_vector3d : Parser k.Stream Vector3d
  read_vector3d = do
    x ← k.read_f8le
    y ← k.read_f8le
    z ← k.read_f8le
    pure (record { x = x; y = y; z = z })

  unfoldable pub read_vector3f : Parser k.Stream Vector3f
  read_vector3f = do
    x ← k.read_f4le
    y ← k.read_f4le
    z ← k.read_f4le
    pure (record { x = x; y = y; z = z })

  unfoldable pub read_x25519_public_key : Parser k.Stream X25519PublicKey
  read_x25519_public_key = do raw ← k.read_bytes 32; pure (record { raw = raw })
