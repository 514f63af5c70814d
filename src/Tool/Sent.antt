-- ===== src/Tool/Sent.antt =====
-- The requests of tool/cmd_device_add_sender.cpp.
use roc_vad.Prelude.{◌≡◌, refl, sym, true, Option, none, some, arith}
use roc_vad.Prelude.Maybe.{◌>>=◌}
use roc_vad.EnumMap.Lookup.{parse_enum}
use roc_vad.EnumMap.Settings.{
  channel_layout_map, fec_encoding_map, resampler_backend_map, resampler_profile_map,
  latency_tuner_backend_map, latency_tuner_profile_map,
}
use roc_vad.EnumMap.SampleFormat.{sample_format_map}
use roc_vad.Message.{RvDeviceType, RvDeviceInfo, NetworkConfig}
use roc_vad.Serdes.Basic.{TimeUtil}
use roc_vad.Tool.Build.{
  set, set_parsed, layout_or_mono, parse_duration_message, EncodingOptions, build_device_encoding,
  build_device,
}
use roc_vad.Tool.AddSender.{
  SenderOptions, packet_encoding, build_packets, build_encoding, build_tuning, build_latency,
  build_sender,
}
use roc_vad.Tool.Requests.{
  tracks_match, is_sender_network, >>=-eq-some, set_keeps, set_parsed_keeps, set_tracks-Fits,
  set_tracks_keeps, build_device_encoding-Fits,
}

-- A step that keeps a property of the message where it succeeds.
abbrev Keeps : {M : Type 0} → (M → Type 0) → (M → Option M) → Type 0
Keeps {M} P step = (m n : M) → P m → step m ≡ some n → P n

module _ {M : Type 0} (P : M → Type 0) where
  then-Keeps : (f g : M → Option M) → Keeps P f → Keeps P g → Keeps P (λ m. f m >>= g)
  then-Keeps f g first second m n p h =
      let (a, e, rest) = >>=-eq-some (f m) g h in second a n (first m a p e) rest

  set-Keeps :
      {A : Type 0} (option : Option A) (setter : A → M → M)
      → ((a : A) (m : M) → P m → P (setter a m))
      → Keeps P (set option setter)
  set-Keeps option setter keeps m n p h = set_keeps P option setter m n keeps p h

  set_parsed-Keeps :
      {A C : Type 0} (parse : A → Option C) (option : Option A) (setter : C → M → M)
      → ((c : C) (m : M) → P m → P (setter c m))
      → Keeps P (set_parsed parse option setter)
  set_parsed-Keeps parse option setter keeps m n p h =
      set_parsed_keeps P parse option setter m n keeps p h

module _ {D : Type 0} where
  abbrev IsPlain : NetworkConfig D → Type 0
  IsPlain n = (is_sender_network n ≡ true) × ((packet_encoding n).track_count ≡ none)

  abbrev IsFit : NetworkConfig D → Type 0
  IsFit n =
      (is_sender_network n ≡ true)
      × (tracks_match (packet_encoding n).channel_layout (packet_encoding n).track_count ≡ true)

  build_encoding-IsFit :
      (o : EncodingOptions) (m n : NetworkConfig D)
      → IsPlain m
      → build_encoding o m ≡ some n
      → IsFit n
  unfolding build_encoding
  build_encoding-IsFit o m n p h =
      let (m1, h1, h) = >>=-eq-some (set o.packet_encoding_id _ m) _ h in
      let (m2, h2, h) = >>=-eq-some (set o.packet_encoding_rate _ m1) _ h in
      let (m3, h3, h) =
        >>=-eq-some (set_parsed (parse_enum sample_format_map) o.packet_encoding_format _ m2) _ h in
      let (m4, h4, h) =
        >>=-eq-some (set_parsed (parse_enum channel_layout_map) o.packet_encoding_chans _ m3) _ h in
      let p1 = set-Keeps IsPlain o.packet_encoding_id _ (λ a m p. (refl, p.1)) m m1 p h1 in
      let p2 = set-Keeps IsPlain o.packet_encoding_rate _ (λ a m p. (refl, p.1)) m1 m2 p1 h2 in
      let p3 =
        set_parsed-Keeps IsPlain (parse_enum sample_format_map) o.packet_encoding_format _
          (λ a m p. (refl, p.1)) m2 m3 p2 h3 in
      let p4 =
        set_parsed-Keeps IsPlain (parse_enum channel_layout_map) o.packet_encoding_chans _
          (λ a m p. (refl, p.1)) m3 m4 p3 h4 in
      (
        set_tracks_keeps (λ m. is_sender_network m ≡ true) (packet_encoding m4).channel_layout
            o.packet_encoding_tracks _ m4 n (λ t. refl) p4.0 h,
        set_tracks-Fits (λ m. (packet_encoding m).channel_layout)
            (λ m. (packet_encoding m).track_count) o.packet_encoding_tracks _ m4 n
            (λ t. (refl, refl)) p4.1 h,
      )

  build_tuning-Keeps : (o : SenderOptions) → Keeps IsFit (build_tuning {D = D} o)
  unfolding build_tuning
  build_tuning-Keeps o =
      then-Keeps IsFit _ _
        (set_parsed-Keeps IsFit (parse_enum fec_encoding_map) o.fec_encoding _
          (λ a m p. (refl, p.1)))
        (then-Keeps IsFit _ _ (set-Keeps IsFit o.fec_block_source_packets _ (λ a m p. (refl, p.1)))
          (then-Keeps IsFit _ _
            (set-Keeps IsFit o.fec_block_repair_packets _ (λ a m p. (refl, p.1)))
            (then-Keeps IsFit _ _
              (set_parsed-Keeps IsFit (parse_enum resampler_backend_map) o.resampler_backend _
                (λ a m p. (refl, p.1)))
              (then-Keeps IsFit _ _
                (set_parsed-Keeps IsFit (parse_enum resampler_profile_map) o.resampler_profile _
                  (λ a m p. (refl, p.1)))
                (then-Keeps IsFit _ _
                  (set_parsed-Keeps IsFit (parse_enum latency_tuner_backend_map)
                    o.latency_tuner_backend _ (λ a m p. (refl, p.1)))
                  (set_parsed-Keeps IsFit (parse_enum latency_tuner_profile_map)
                    o.latency_tuner_profile _ (λ a m p. (refl, p.1))))))))

  module _ (time : TimeUtil D) where
    build_packets-Keeps : (o : SenderOptions) → Keeps IsPlain (build_packets time o)
    unfolding build_packets
    build_packets-Keeps o =
        then-Keeps IsPlain _ _
          (set_parsed-Keeps IsPlain (parse_duration_message time) o.packet_length _
            (λ a m p. (refl, p.1)))
          (set-Keeps IsPlain o.max_packet_size _ (λ a m p. (refl, p.1)))

    build_latency-Keeps : (o : SenderOptions) → Keeps IsFit (build_latency time o)
    unfolding build_latency
    build_latency-Keeps o =
        then-Keeps IsFit _ _
          (set_parsed-Keeps IsFit (parse_duration_message time) o.target_latency _
            (λ a m p. (refl, p.1)))
          (set_parsed-Keeps IsFit (parse_duration_message time) o.latency_tolerance _
            (λ a m p. (refl, p.1)))

    build_device_lem :
        (o : SenderOptions) (r : RvDeviceInfo D)
        → build_device time RvDeviceType.sender o.device ≡ some r
        → (r.type ≡ RvDeviceType.sender)
          × (r.index ≡ none)
          × (r.network_config ≡ NetworkConfig.unset)
          × (tracks_match
                (layout_or_mono r.device_encoding.channel_layout)
                r.device_encoding.track_count
              ≡ true)
    unfolding build_device
    build_device_lem o r h =
        let (e, built, h) = >>=-eq-some (build_device_encoding time o.device) _ h in
        ground (arith, h, build_device_encoding-Fits time o.device e built)

    -- Every request that `device add sender` builds is for a sender, leaves the index to the driver, and has
    -- a sender configuration or none; the device encoding and the packet encoding have a track count
    -- if their layout is `multitrack`, and only then.
    pub build_sender-Fits :
        (o : SenderOptions) (request : RvDeviceInfo D)
        → build_sender time o ≡ some request
        → (request.type ≡ RvDeviceType.sender)
          × (request.index ≡ none)
          × (is_sender_network request.network_config ≡ true)
          × (tracks_match
                (layout_or_mono request.device_encoding.channel_layout)
                request.device_encoding.track_count
              ≡ true)
          × (tracks_match
                (packet_encoding request.network_config).channel_layout
                (packet_encoding request.network_config).track_count
              ≡ true)
    unfolding build_sender
    build_sender-Fits o request h =
        let (r, h0, h) = >>=-eq-some (build_device time RvDeviceType.sender o.device) _ h in
        let (n1, h1, h) = >>=-eq-some (build_packets time o r.network_config) _ h in
        let (n2, h2, h) = >>=-eq-some (build_encoding o.encoding n1) _ h in
        let (n3, h3, h) = >>=-eq-some (build_tuning o n2) _ h in
        let (n4, h4, h) = >>=-eq-some (build_latency time o n3) _ h in
        let (type, index, network, tracks) = build_device_lem o r h0 in
        let p1 = build_packets-Keeps o r.network_config n1 (ground (arith, network)) h1 in
        let p2 = build_encoding-IsFit o.encoding n1 n2 p1 h2 in
        let p4 = build_latency-Keeps o n3 n4 (build_tuning-Keeps o n2 n3 p2 h3) h4 in
        let same : record r { network_config = n4 } ≡ request = ground (arith, h) in
        rw (sym same) (type, index, p4.0, tracks, p4.1)
