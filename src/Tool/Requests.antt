-- ===== src/Tool/Requests.antt =====
-- What the commands of the tool send.
use mathlib.Core.Path.{subst}
use roc_vad.Prelude.{
  ℕ, sym, ◌≡◌, refl, Option-cases, inl, inr, Bool, true, false, Option, none, some, arith,
}
use roc_vad.Prelude.Maybe.{◌>>=◌}
use roc_vad.EnumMap.Lookup.{parse_enum}
use roc_vad.EnumMap.Settings.{RvChannelLayout, channel_layout_map}
use roc_vad.Message.{RvDeviceEncoding, NetworkConfig}
use roc_vad.Serdes.Basic.{TimeUtil}
use roc_vad.Tool.Build.{
  set, set_parsed, set_tracks, layout_or_mono, parse_duration_message, DeviceOptions,
  build_device_encoding,
}

-- A track count stands with the layout `multitrack`, and with no other.
abbrev pub tracks_match : RvChannelLayout → Option ℕ → Bool
tracks_match RvChannelLayout.multitrack none = false
tracks_match RvChannelLayout.multitrack (some n) = true
tracks_match _ none = true
tracks_match _ (some n) = false

abbrev pub is_sender_network : {D : Type 0} → NetworkConfig D → Bool
is_sender_network NetworkConfig.unset = true
is_sender_network (NetworkConfig.sender_config c) = true
is_sender_network (NetworkConfig.receiver_config c) = false

pub >>=-eq-some :
    {A B : Type 0} {b : B} (m : Option A) (f : A → Option B)
    → (m >>= f) ≡ some b
    → (a : A) × (m ≡ some a) × (f a ≡ some b)
>>=-eq-some none f h = absurd (ground (arith, h))
>>=-eq-some (some a) f h = (a, refl, h)

-- What a step keeps of a message.
module _ {M : Type 0} (P : M → Type 0) where
  pub set_keeps :
      {A : Type 0} (option : Option A) (setter : A → M → M) (m n : M)
      → ((a : A) (m : M) → P m → P (setter a m))
      → P m
      → set option setter m ≡ some n
      → P n
  set_keeps none setter m n keeps p h = subst P (ground (arith, h)) p
  set_keeps (some a) setter m n keeps p h = subst P (ground (arith, h)) (keeps a m p)

  pub set_parsed_keeps :
      {A C : Type 0} (parse : A → Option C) (option : Option A) (setter : C → M → M) (m n : M)
      → ((c : C) (m : M) → P m → P (setter c m))
      → P m
      → set_parsed parse option setter m ≡ some n
      → P n
  set_parsed_keeps parse none setter m n keeps p h = subst P (ground (arith, h)) p
  set_parsed_keeps parse (some a) setter m n keeps p h = elim (Option-cases (parse a)) [
    | inl bad ↦ absurd (ground (arith, h, bad))
    | inr (c, good) ↦ subst P (ground (arith, h, good)) (keeps c m p)
  ]

abbrev applied : {M : Type 0} → Option ℕ → (ℕ → M → M) → M → M
applied none setter m = m
applied (some t) setter m = setter t m

-- `set_tracks` succeeds where the track count fits the layout, and sets it.
set_tracks_lem :
    {M : Type 0} (layout : RvChannelLayout) (option : Option ℕ) (setter : ℕ → M → M) (m n : M)
    → set_tracks layout option setter m ≡ some n
    → (tracks_match layout option ≡ true) × (applied option setter m ≡ n)
set_tracks_lem RvChannelLayout.multitrack none setter m n h = absurd (ground (arith, h))
set_tracks_lem RvChannelLayout.multitrack (some t) setter m n h = (refl, ground (arith, h))
set_tracks_lem RvChannelLayout.mono none setter m n h = (refl, ground (arith, h))
set_tracks_lem RvChannelLayout.mono (some t) setter m n h = absurd (ground (arith, h))
set_tracks_lem RvChannelLayout.stereo none setter m n h = (refl, ground (arith, h))
set_tracks_lem RvChannelLayout.stereo (some t) setter m n h = absurd (ground (arith, h))
set_tracks_lem (RvChannelLayout.other k) none setter m n h = (refl, ground (arith, h))
set_tracks_lem (RvChannelLayout.other k) (some t) setter m n h = absurd (ground (arith, h))

pub set_tracks_keeps :
    {M : Type 0} (P : M → Type 0) (layout : RvChannelLayout) (option : Option ℕ)
    (setter : ℕ → M → M) (m n : M)
    → ((t : ℕ) → P (setter t m))
    → P m
    → set_tracks layout option setter m ≡ some n
    → P n
set_tracks_keeps P layout none setter m n keeps p h =
    subst P (set_tracks_lem layout none setter m n h).1 p
set_tracks_keeps P layout (some t) setter m n keeps p h =
    subst P (set_tracks_lem layout (some t) setter m n h).1 (keeps t)

-- The message before the track count has none; the one after it has one that fits.
pub set_tracks-Fits :
    {M : Type 0} (layout : M → RvChannelLayout) (tracks : M → Option ℕ) (option : Option ℕ)
    (setter : ℕ → M → M) (m n : M)
    → ((t : ℕ) → (layout (setter t m) ≡ layout m) × (tracks (setter t m) ≡ some t))
    → tracks m ≡ none
    → set_tracks (layout m) option setter m ≡ some n
    → tracks_match (layout n) (tracks n) ≡ true
set_tracks-Fits layout tracks none setter m n sets blank h =
    let (fits, same) = set_tracks_lem (layout m) none setter m n h in rw (sym same, blank) fits
set_tracks-Fits layout tracks (some t) setter m n sets blank h =
    let (fits, same) = set_tracks_lem (layout m) (some t) setter m n h in
    rw (sym same, (sets t).0, (sets t).1) fits

module _ {D : Type 0} (time : TimeUtil D) where
  abbrev encoding_layout : RvDeviceEncoding D → RvChannelLayout
  encoding_layout e = layout_or_mono e.channel_layout

  pub build_device_encoding-Fits :
      (o : DeviceOptions) (e : RvDeviceEncoding D)
      → build_device_encoding time o ≡ some e
      → tracks_match (encoding_layout e) e.track_count ≡ true
  unfolding build_device_encoding
  build_device_encoding-Fits o e h =
      let no_tracks = λ (e : RvDeviceEncoding D). e.track_count ≡ none in
      let fits =
        λ (e : RvDeviceEncoding D). tracks_match (encoding_layout e) e.track_count ≡ true in
      let (e1, h1, h) = >>=-eq-some (set o.device_encoding_rate _ _) _ h in
      let (e2, h2, h) =
        >>=-eq-some (set_parsed (parse_enum channel_layout_map) o.device_encoding_chans _ e1) _ h in
      let (e3, h3, h) =
        >>=-eq-some (set_tracks (encoding_layout e2) o.device_encoding_tracks _ e2) _ h in
      let p1 = set_keeps no_tracks o.device_encoding_rate _ _ e1 (λ a m p. p) refl h1 in
      let p2 =
        set_parsed_keeps no_tracks (parse_enum channel_layout_map) o.device_encoding_chans _ e1 e2
          (λ a m p. p) p1 h2 in
      let p3 =
        set_tracks-Fits encoding_layout (λ m. m.track_count) o.device_encoding_tracks _ e2 e3
          (λ t. (refl, refl)) p2 h3 in
      set_parsed_keeps fits (parse_duration_message time) o.device_encoding_buffer _ e3 e
        (λ a m p. p) p3 h
