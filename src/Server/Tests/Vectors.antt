-- ===== src/Server/Tests/Vectors.antt =====
-- The golden frames at the started gateway.
use void_protocol_oss.Base.{◌≡◌, refl, true, none, some, List, All, length, is_some}
use void_protocol_oss.Base.Dict.{bytes_Eq}
use void_protocol_oss.Wire.Samples.{sample_ed, sample_crc}
use void_protocol_oss.Protocol.Samples.{sample_kaitai}
use void_protocol_oss.Receipt.SampleJson.{sample_json}
use void_protocol_oss.Server.Started.{demo_seed}
use void_protocol_oss.Base.Bytes.{Bytes}
use void_protocol_oss.Registry.{flat_sat_demo_wallet}
use void_protocol_oss.Chain.Client.{derive_tx_nonce}
use void_protocol_oss.Ingest.{ingest_packet}
use void_protocol_oss.Generator.{
  det_sat_id, det_amount, det_asset_id, det_epoch_ts_ms, gen_packet_b,
}
use void_protocol_oss.Generator.Vectors.{Disk, Vector, write_golden_vectors}
use void_protocol_oss.Generator.Golden.{IsCarried, golden_vectors_written}
use void_protocol_oss.Generator.Settles.{golden_payment_settles}
use void_protocol_oss.Server.Tests.{start_run, world, online, started}

abbrev disk : Disk
disk = record { makes_directory = λ t. true; writes_file = λ name t. true }

golden_vectors_written_example :
    (vs : List Vector) × (write_golden_vectors sample_ed sample_crc demo_seed disk ≡ (vs, none))
    × (length vs ≡ 14)
    × All IsCarried vs
golden_vectors_written_example =
    golden_vectors_written sample_ed sample_crc demo_seed disk
      (record { directories = λ t. refl; files = λ name t. refl })

golden_payment_settles_example :
    (raw : Bytes) × (gen_packet_b sample_ed sample_crc demo_seed true ≡ some raw)
    × ((ingest_packet sample_kaitai sample_ed sample_crc world.hex_to_address started.registry
          (is_some started.submitter)
          (some raw)).1
        ≡ some (record {
          sat_id = det_sat_id;
          amount = det_amount;
          asset_id = det_asset_id;
          tx_nonce = derive_tx_nonce det_sat_id det_epoch_ts_ms;
          wallet = world.hex_to_address flat_sat_demo_wallet;
        }))
golden_payment_settles_example =
    golden_payment_settles sample_ed sample_crc online world sample_json sample_kaitai true started
      start_run refl
