-- ===== src/Mixer/Answers.antt =====
-- Every client gets one answer to its packet.
use jammer_netz.Base.{ℕ, ◌≡◌, refl, sym, ◌∙◌, List, [], ◌∷◌, arith, add64, Text, subst}
use jammer_netz.Platform.{Platform}
use jammer_netz.Package.{ChannelSetup, AudioData, Store, counter, midi_none}
use jammer_netz.Package.Memory.{Keeps, Keeps-refl, Keeps-trans, alloc-Keeps, alloc_lem}
use jammer_netz.Mixer.{
  Incoming, OutgoingPackage, Mixer, Diagnostic, gather, gather_start, mix_for, mix_all, mix,
}
use jammer_netz.Mixer.Outgoing.{
  session_midi, other_channels, session_bpm, gather_lem, joined_lem, InStore, mixed_output,
  gather-output, mixed_output-Keeps,
}

module _ (P : Platform) where
  open P use {Float, literal, lt, num_samples, clear, new_buffer}

  abbrev silence : ℕ → P.Buffer
  silence n = clear (new_buffer 2 n)

  -- The package answers the client's packet: it goes to the client under the packet's counter, time
  -- stamp and protocol version, with the sample position, the tempo and the MIDI signal of the
  -- session, the channels of the other clients, and the mix for this client in the buffer.
  pub record IsAnswer (st st' : Store P) (incoming : Incoming P) (buffer_length time : ℕ)
      (setup : ChannelSetup P) (last_bpm : Float) (name : Text) (d : AudioData P)
      (package' : OutgoingPackage P) : Type 0 where
    pub target : package'.target_address ≡ name
    pub message_counter : package'.audio_block.message_counter ≡ counter P d
    pub timestamp : package'.audio_block.timestamp ≡ d.audio_block.timestamp
    pub version : package'.receiver_protocol_version ≡ d.protocol_version
    pub server_time : package'.audio_block.server_time ≡ time
    pub bpm : package'.audio_block.bpm ≡ session_bpm P last_bpm incoming
    pub midi_signal : package'.audio_block.midi_signal ≡ session_midi P incoming
    pub mixdown : package'.audio_block.channel_setup ≡ setup
    pub session : package'.session_setup.channels ≡ other_channels P name incoming
    pub output :
        st'.cells package'.audio_block.audio_buffer
        ≡ mixed_output P st name incoming (silence buffer_length)

  -- One answer for each receiver, in their order.
  abbrev pub Answers :
      Store P
      → Store P
      → Incoming P
      → ℕ
      → ℕ
      → ChannelSetup P
      → Float
      → Incoming P
      → List (OutgoingPackage P)
      → Type 0
  Answers st st' incoming n time setup bpm [] [] = Unit
  Answers st st' incoming n time setup bpm [] (p ∷ ps) = ⊥
  Answers st st' incoming n time setup bpm ((name, d) ∷ rs) [] = ⊥
  Answers st st' incoming n time setup bpm ((name, d) ∷ rs) (p ∷ ps) =
      IsAnswer st st' incoming n time setup bpm name d p
      × Answers st st' incoming n time setup bpm rs ps

  -- The tempo of the session settles with the first receiver.
  session_bpm_twice :
      (last : Float) (incoming : Incoming P)
      → session_bpm P (session_bpm P last incoming) incoming ≡ session_bpm P last incoming
  session_bpm_twice last incoming = ground arith

  midi_lem :
      (st : Store P) (receiver : Text) (incoming : Incoming P) (n : ℕ) (ds : List Diagnostic)
      → (gather P st receiver incoming (gather_start P n ds)).midi_signal ≡ session_midi P incoming
  midi_lem st receiver incoming n ds =
      (gather_lem P st receiver incoming (gather_start P n ds)).2
      ∙ joined_lem P midi_none incoming
      ∙ ground arith

  mix_for-Keeps :
      (n : ℕ) (incoming : Incoming P) (name : Text) (d : AudioData P) (m : Mixer P)
      (ds : List Diagnostic) (st : Store P)
      → Keeps P st (mix_for P n incoming (name, d) m ds st).3
  unfolding mix_for
  mix_for-Keeps n incoming name d m ds st =
      alloc-Keeps P (gather P st name incoming (gather_start P n ds)).output st

  mix_for-IsAnswer :
      (n : ℕ) (incoming : Incoming P) (name : Text) (d : AudioData P) (m : Mixer P)
      (ds : List Diagnostic) (st st' : Store P)
      → Keeps P (mix_for P n incoming (name, d) m ds st).3 st'
      → IsAnswer st st' incoming n m.server_time m.mixdown_setup m.last_bpm name d
          (mix_for P n incoming (name, d) m ds st).0
  unfolding mix_for
  mix_for-IsAnswer n incoming name d m ds st st' k =
      let g = gather_lem P st name incoming (gather_start P n ds) in
      record {
        target = refl;
        message_counter = refl;
        timestamp = refl;
        version = refl;
        server_time = refl;
        bpm = rw g.1;
        midi_signal = midi_lem st name incoming n ds;
        mixdown = refl;
        session = g.0;
        output =
            alloc_lem P (gather P st name incoming (gather_start P n ds)).output st st' k
            ∙ gather-output P st name incoming (gather_start P n ds);
      }

  -- An answer seen from an earlier store and an earlier tempo.
  IsAnswer-since :
      (st0 st st' : Store P) (incoming : Incoming P) (n time : ℕ) (setup : ChannelSetup P)
      (b0 b : Float) (name : Text) (d : AudioData P) (p : OutgoingPackage P)
      → Keeps P st0 st
      → InStore P st0.next incoming
      → session_bpm P b incoming ≡ session_bpm P b0 incoming
      → IsAnswer st st' incoming n time setup b name d p
      → IsAnswer st0 st' incoming n time setup b0 name d p
  IsAnswer-since st0 st st' incoming n time setup b0 b name d p k h e a = record {
    target = a.target;
    message_counter = a.message_counter;
    timestamp = a.timestamp;
    version = a.version;
    server_time = a.server_time;
    bpm = a.bpm ∙ e;
    midi_signal = a.midi_signal;
    mixdown = a.mixdown;
    session = a.session;
    output = a.output ∙ mixed_output-Keeps P st0 st name incoming (silence n) k h;
  }

  mix_all-Keeps :
      (n : ℕ) (incoming rs : Incoming P) (m : Mixer P) (ds : List Diagnostic) (st : Store P)
      → Keeps P st (mix_all P n incoming rs m ds st).3
  unfolding mix_all
  mix_all-Keeps n incoming [] m ds st = Keeps-refl P st
  mix_all-Keeps n incoming ((name, d) ∷ rs) m ds st =
      let r = mix_for P n incoming (name, d) m ds st in
      Keeps-trans P st r.3 _ (mix_for-Keeps n incoming name d m ds st)
        (mix_all-Keeps n incoming rs r.1 r.2 r.3)

  -- The state after one receiver.
  mix_for_state :
      (n : ℕ) (incoming : Incoming P) (name : Text) (d : AudioData P) (m : Mixer P)
      (ds : List Diagnostic) (st : Store P)
      → (mix_for P n incoming (name, d) m ds st).1
        ≡ record m { last_bpm = session_bpm P m.last_bpm incoming }
  unfolding mix_for
  mix_for_state n incoming name d m ds st =
      rw (gather_lem P st name incoming (gather_start P n ds)).1

  mix_all-Answers :
      (n : ℕ) (incoming rs : Incoming P) (time : ℕ) (setup : ChannelSetup P) (b0 b : Float)
      (ds : List Diagnostic) (st0 st : Store P)
      → Keeps P st0 st
      → InStore P st0.next incoming
      → session_bpm P b incoming ≡ session_bpm P b0 incoming
      → let m : Mixer P = record { server_time = time; last_bpm = b; mixdown_setup = setup } in
        let r = mix_all P n incoming rs m ds st in Answers st0 r.3 incoming n time setup b0 rs r.0
  unfolding mix_all
  mix_all-Answers n incoming [] time setup b0 b ds st0 st k h e = tt
  mix_all-Answers n incoming ((name, d) ∷ rs) time setup b0 b ds st0 st k h e =
      let m : Mixer P = record { server_time = time; last_bpm = b; mixdown_setup = setup } in
      let r = mix_for P n incoming (name, d) m ds st in
      let r' = mix_all P n incoming rs r.1 r.2 r.3 in
      (
        IsAnswer-since st0 st r'.3 incoming n time setup b0 b name d r.0 k h e (
            mix_for-IsAnswer n incoming name d m ds st r'.3
              (mix_all-Keeps n incoming rs r.1 r.2 r.3)),
        subst
            (λ m'.
              Answers st0 (mix_all P n incoming rs m' r.2 r.3).3 incoming n time setup b0 rs
                (mix_all P n incoming rs m' r.2 r.3).0)
            (sym (mix_for_state n incoming name d m ds st))
            (mix_all-Answers n incoming rs time setup b0 (session_bpm P b incoming) r.2 st0 r.3
              (Keeps-trans P st0 st r.3 k (mix_for-Keeps n incoming name d m ds st)) h
              (session_bpm_twice b incoming ∙ e)),
      )

  mix_all-server_time :
      (n : ℕ) (incoming rs : Incoming P) (m : Mixer P) (ds : List Diagnostic) (st : Store P)
      → (mix_all P n incoming rs m ds st).1.server_time ≡ m.server_time
  unfolding mix_all mix_for
  mix_all-server_time n incoming [] m ds st = refl
  mix_all-server_time n incoming ((name, d) ∷ rs) m ds st =
      let r = mix_for P n incoming (name, d) m ds st in
      mix_all-server_time n incoming rs r.1 r.2 r.3

  -- When the packets' buffers are in the store, one mix answers every client exactly once and in
  -- the order of the clients: each answer goes to its client with the counter, the time stamp and
  -- the protocol version of that client's packet, at the sample position advanced by the length of
  -- the first packet's buffer, with the tempo and the MIDI signal of the whole session, the
  -- channels of the other clients, and in its buffer the mix of all packets for this client. The
  -- next mix starts at that sample position.
  pub mix-Answers :
      (name : Text) (d : AudioData P) (rest : Incoming P) (m : Mixer P) (st : Store P)
      → InStore P st.next ((name, d) ∷ rest)
      → let incoming : Incoming P = (name, d) ∷ rest in
        let n = num_samples (st.cells d.audio_block.audio_buffer) in
        let r = mix P incoming m st in
        (r.0.server_time ≡ add64 m.server_time n)
        × (r.1.server_time ≡ add64 m.server_time n)
        × Answers st r.2 incoming n
            (add64 m.server_time n)
            m.mixdown_setup
            m.last_bpm
            incoming
            r.0.outgoing
  unfolding mix
  mix-Answers name d rest m st h =
      let n = num_samples (st.cells d.audio_block.audio_buffer) in
      (
        refl,
        mix_all-server_time n ((name, d) ∷ rest) ((name, d) ∷ rest)
            (record m { server_time = add64 m.server_time n }) [] st,
        mix_all-Answers n ((name, d) ∷ rest) ((name, d) ∷ rest) (add64 m.server_time n)
            m.mixdown_setup m.last_bpm m.last_bpm [] st st (Keeps-refl P st) h refl,
      )
