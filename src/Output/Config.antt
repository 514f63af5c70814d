-- ===== src/Output/Config.antt =====
-- Encodings and network configurations in tool/print.cpp.
use Prim.Native.String.{String}
use roc_vad.Prelude.{ℕ, List, [], ◌∷◌, ◌++◌, Option, none, some}
use roc_vad.EnumMap.Settings.{
  RvChannelLayout, channel_layout_map, RvChannelLayout-discrete, RvFecEncoding, fec_encoding_map,
  RvFecEncoding-discrete, RvLatencyTunerBackend, latency_tuner_backend_map,
  RvLatencyTunerBackend-discrete, RvLatencyTunerProfile, latency_tuner_profile_map,
  RvLatencyTunerProfile-discrete, RvResamplerBackend, resampler_backend_map,
  RvResamplerBackend-discrete, RvResamplerProfile, resampler_profile_map,
  RvResamplerProfile-discrete,
}
use roc_vad.EnumMap.SampleFormat.{sample_format_map, RvSampleFormat-discrete}
use roc_vad.Message.{RvPacketEncoding, RvDeviceEncoding, RvSenderConfig, RvReceiverConfig}
use roc_vad.Serdes.Basic.{or_kept}
use roc_vad.Output.{num, str, Line, println, Format, format_size, format_duration, format_enum}
use roc_vad.Output.Numbers.{
  layout_number, fec_number, latency_backend_number, latency_profile_number,
  resampler_backend_number, resampler_profile_number, sample_format_number,
}

-- A line with a text.
abbrev pub line : String → String → Line
line label value = println label (str value ∷ [])

-- The tracks, which a multi-track layout alone has.
abbrev print_tracks : String → RvChannelLayout → Option ℕ → List Line
print_tracks label RvChannelLayout.multitrack (some track_count) =
    println label (num track_count ∷ []) ∷ []
print_tracks label _ _ = []

module _ {D : Type 0} (fmt : Format D) where
  abbrev shown_layout : RvChannelLayout → String
  shown_layout = format_enum fmt RvChannelLayout-discrete layout_number channel_layout_map

  abbrev shown_duration : Option D → String
  shown_duration d = format_duration fmt (or_kept d fmt.unset_duration)

  unfoldable pub print_packet_encoding : RvPacketEncoding → List Line
  print_packet_encoding e =
      println "    packet_encoding:" []
      ∷ println "      id:        {}" (num e.encoding_id ∷ [])
      ∷ println "      rate:      {}Hz" (num e.sample_rate ∷ [])
      ∷ line "      format:    {}" (
          format_enum fmt RvSampleFormat-discrete sample_format_number sample_format_map
            e.sample_format)
      ∷ line "      channels:  {}" (shown_layout e.channel_layout)
      ∷ print_tracks "      tracks:    {}" e.channel_layout e.track_count

  unfoldable pub print_device_encoding : RvDeviceEncoding D → List Line
  print_device_encoding e =
      let layout = or_kept e.channel_layout RvChannelLayout.mono in
      println "  device_encoding:" []
        ∷ println "    rate:      {}Hz" (num (or_kept e.sample_rate 0) ∷ [])
        ∷ line "    channels:  {}" (shown_layout layout)
        ∷ print_tracks "    tracks:    {}" layout e.track_count
      ++ line "    buffer:    {}" (shown_duration e.buffer_length) ∷ []

  -- The lines on the resampler and on the latency tuner, which both configurations have.
  unfoldable pub print_resampler :
      Option RvResamplerBackend → Option RvResamplerProfile → List Line → List Line
  print_resampler backend profile rest =
      line "    resampler_backend:  {}" (
        format_enum fmt RvResamplerBackend-discrete resampler_backend_number resampler_backend_map
          (or_kept backend RvResamplerBackend.default))
      ∷ line "    resampler_profile:  {}" (
          format_enum fmt RvResamplerProfile-discrete resampler_profile_number resampler_profile_map
            (or_kept profile RvResamplerProfile.default))
      ∷ println "" []
      ∷ rest

  unfoldable pub print_latency_tuner :
      Option RvLatencyTunerBackend → Option RvLatencyTunerProfile → List Line → List Line
  print_latency_tuner backend profile rest =
      line "    latency_backend:  {}" (
        format_enum fmt RvLatencyTunerBackend-discrete latency_backend_number
          latency_tuner_backend_map (or_kept backend RvLatencyTunerBackend.default))
      ∷ line "    latency_profile:  {}" (
          format_enum fmt RvLatencyTunerProfile-discrete latency_profile_number
            latency_tuner_profile_map (or_kept profile RvLatencyTunerProfile.default))
      ∷ println "" []
      ∷ rest

  abbrev print_sender_encoding : Option RvPacketEncoding → List Line
  print_sender_encoding none = println "    packet_encoding:      default" [] ∷ []
  print_sender_encoding (some e) = print_packet_encoding e

  unfoldable pub print_sender_config : RvSenderConfig D → List Line
  print_sender_config c =
      println "" []
        ∷ println "  sender_config:" []
        ∷ line "    packet_length:        {}" (shown_duration c.packet_length)
        ∷ println "    max_packet_size:      {}" (num (or_kept c.max_packet_size 0) ∷ [])
        ∷ print_sender_encoding c.packet_encoding
      ++ println "" []
        ∷ line "    fec_encoding:     {}" (
            format_enum fmt RvFecEncoding-discrete fec_number fec_encoding_map
              (or_kept c.fec_encoding RvFecEncoding.disable))
        ∷ line "    fec_block_nbsrc:  {}" (format_size (or_kept c.fec_block_source_packets 0))
        ∷ line "    fec_block_nbrpr:  {}" (format_size (or_kept c.fec_block_repair_packets 0))
        ∷ println "" []
        ∷ print_resampler c.resampler_backend c.resampler_profile (
            print_latency_tuner c.latency_tuner_backend c.latency_tuner_profile (
              line "    target_latency:     {}" (shown_duration c.target_latency)
              ∷ line "    latency_tolerance:  {}" (shown_duration c.latency_tolerance)
              ∷ []))

  unfoldable pub print_packet_encodings : List RvPacketEncoding → List Line
  print_packet_encodings [] = []
  print_packet_encodings (e ∷ es) =
      print_packet_encoding e ++ println "" [] ∷ print_packet_encodings es

  unfoldable pub print_receiver_config : RvReceiverConfig D → List Line
  print_receiver_config c =
      println "" [] ∷ println "  receiver_config:" [] ∷ print_packet_encodings c.packet_encodings
      ++ print_resampler c.resampler_backend c.resampler_profile (
          print_latency_tuner c.latency_tuner_backend c.latency_tuner_profile (
            line "    target_latency:    {}" (shown_duration c.target_latency)
            ∷ line "    latency_tolerance:  {}" (shown_duration c.latency_tolerance)
            ∷ println "" []
            ∷ line "    no_play_timeout:      {}" (shown_duration c.no_playback_timeout)
            ∷ line "    choppy_play_timeout:  {}" (shown_duration c.choppy_playback_timeout)
            ∷ []))
