-- ===== src/Package/Tests.antt =====
-- The made-up packets at concrete inputs.
use jammer_netz.Base.{◌≡◌, none, some, arith}
use jammer_netz.Package.{
  AudioData, counter, create_fill_in_package, create_pre_padding_package, midi_none,
}
use jammer_netz.Package.FillIn.{Stands, create_fill_in_package_lem}
use jammer_netz.Package.Padding.{create_pre_padding_package-IsSilent}
use jammer_netz.Samples.{integers, integers-BufferLaws, one_buffer, packet}

-- A packet with the block before it as FEC.
abbrev healing : AudioData integers
healing = record (packet 20) { fec_block = some (packet 18).audio_block }

create_fill_in_package_lem_example :
    let (had_fec, e) = create_fill_in_package integers one_buffer healing 18 in
    (counter integers e ≡ 18)
    × (e.fec_block ≡ none)
    × (e.protocol_version ≡ healing.protocol_version)
    × (e.legacy_session ≡ healing.legacy_session)
    × Stands integers one_buffer healing 18 (some (packet 18).audio_block) had_fec e
create_fill_in_package_lem_example =
    create_fill_in_package_lem integers one_buffer healing 18 (omega arith) (omega arith)

create_pre_padding_package-IsSilent_example :
    let (e, st') = create_pre_padding_package integers (packet 20) one_buffer in
    ((st'.cells e.audio_block.audio_buffer).value 0 1 ≡ 0)
    × ((st'.cells e.audio_block.audio_buffer).samples ≡ 2)
    × ((st'.cells e.audio_block.audio_buffer).channels
        ≡ (one_buffer.cells (packet 20).audio_block.audio_buffer).channels)
    × (e.audio_block.audio_buffer ≡ one_buffer.next)
    × (st'.cells 0 ≡ one_buffer.cells 0)
    × (e.audio_block.midi_signal ≡ midi_none)
    × (e.fec_block ≡ none)
create_pre_padding_package-IsSilent_example =
    create_pre_padding_package-IsSilent integers integers-BufferLaws (packet 20) one_buffer 0 0 1
      (omega arith) (omega arith) (omega arith)
