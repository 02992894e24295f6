-- ===== src/Mixer/Outgoing.antt =====
-- What every client gets back from one mix.
use jammer_netz.Base.{
  ℕ, ◌≡◌, refl, sym, ◌∙◌, ap, Bool, true, false, ◌||◌, List, [], ◌∷◌, ◌++◌, if◌then◌else◌, arith,
  Text, text_eq, All, ◌<◌,
}
use mathlib.Core.List.{append-nil, append_assoc}
use jammer_netz.Platform.{Platform}
use jammer_netz.Package.{
  MidiSignal, midi_none, midi_start, midi_stop, SingleChannelSetup, AudioData, Store,
}
use jammer_netz.Package.Memory.{Keeps}
use jammer_netz.Mixer.{
  Incoming, Gathered, Diagnostic, gather_client, gather, buffer_mixdown, max_float, join_midi,
}

abbrev pub is_start : MidiSignal → Bool
is_start midi_start = true
is_start _ = false

abbrev pub is_stop : MidiSignal → Bool
is_stop midi_stop = true
is_stop _ = false

module _ (P : Platform) where
  open P use {Float, literal, lt, num_samples}

  abbrev pub any_midi : (MidiSignal → Bool) → Incoming P → Bool
  any_midi test [] = false
  any_midi test ((name, d) ∷ rest) = test d.audio_block.midi_signal || any_midi test rest

  -- Stop wins over start.
  abbrev pub session_midi : Incoming P → MidiSignal
  session_midi incoming =
      if any_midi is_stop incoming
      then midi_stop
      else if any_midi is_start incoming
      then midi_start
      else midi_none

  -- The channels of all clients but the receiver.
  abbrev pub other_channels : Text → Incoming P → List (SingleChannelSetup P)
  other_channels receiver [] = []
  other_channels receiver ((name, d) ∷ rest) =
      if text_eq name receiver
      then other_channels receiver rest
      else d.audio_block.channel_setup.channels ++ other_channels receiver rest

  abbrev pub maximum_bpm : Float → Incoming P → Float
  maximum_bpm best [] = best
  maximum_bpm best ((name, d) ∷ rest) = maximum_bpm (max_float P best d.audio_block.bpm) rest

  abbrev pub session_bpm : Float → Incoming P → Float
  session_bpm last incoming =
      let best = maximum_bpm (literal 0 0) incoming in if lt (literal 0 0) best then best else last

  abbrev pub joined : MidiSignal → Incoming P → MidiSignal
  joined m [] = m
  joined m ((name, d) ∷ rest) = joined (join_midi P m d.audio_block.midi_signal) rest

  pub gather_lem :
      (st : Store P) (receiver : Text) (incoming : Incoming P) (g : Gathered P)
      → let g' = gather P st receiver incoming g in
        (g'.session_channels ≡ g.session_channels ++ other_channels receiver incoming)
        × (g'.maximum_bpm ≡ maximum_bpm g.maximum_bpm incoming)
        × (g'.midi_signal ≡ joined g.midi_signal incoming)
  unfolding gather gather_client
  gather_lem st receiver [] g = (sym (append-nil g.session_channels), refl, refl)
  gather_lem st receiver ((name, d) ∷ rest) g =
      let ih = gather_lem st receiver rest (gather_client P st receiver (name, d) g) in
      (
        ih.0
            ∙ ground (
              arith,
              append_assoc g.session_channels d.audio_block.channel_setup.channels
                  (other_channels receiver rest),
            ),
        ih.1,
        ih.2,
      )

  pub joined_lem :
      (m : MidiSignal) (incoming : Incoming P)
      → joined m incoming ≡ (
          if any_midi is_stop incoming
          then midi_stop
          else join_midi P m (if any_midi is_start incoming then midi_start else midi_none))
  joined_lem midi_none [] = refl
  joined_lem midi_start [] = refl
  joined_lem midi_stop [] = refl
  joined_lem m ((name, d) ∷ rest) =
      ground (arith, joined_lem (join_midi P m d.audio_block.midi_signal) rest)

  -- The buffers of the clients' packets are in the store.
  abbrev pub InStore : ℕ → Incoming P → Type 0
  InStore n = All (λ client. client.1.audio_block.audio_buffer < n)

  -- The mix for a receiver, client by client.
  abbrev pub mixed_output : Store P → Text → Incoming P → P.Buffer → P.Buffer
  mixed_output st receiver [] output = output
  mixed_output st receiver ((name, d) ∷ rest) output =
      mixed_output st receiver rest (buffer_mixdown P st output d (text_eq name receiver) []).0

  buffer_mixdown-diagnostics :
      (st : Store P) (output : P.Buffer) (d : AudioData P) (s : Bool) (before : List Diagnostic)
      → (buffer_mixdown P st output d s before).0 ≡ (buffer_mixdown P st output d s []).0
  unfolding buffer_mixdown
  buffer_mixdown-diagnostics st output d s before = ground arith

  pub gather-output :
      (st : Store P) (receiver : Text) (incoming : Incoming P) (g : Gathered P)
      → (gather P st receiver incoming g).output ≡ mixed_output st receiver incoming g.output
  unfolding gather gather_client
  gather-output st receiver [] g = refl
  gather-output st receiver ((name, d) ∷ rest) g =
      gather-output st receiver rest (gather_client P st receiver (name, d) g)
      ∙ ap (mixed_output st receiver rest)
          (buffer_mixdown-diagnostics st g.output d (text_eq name receiver) g.diagnostics)

  buffer_mixdown-Keeps :
      (st st' : Store P) (output : P.Buffer) (d : AudioData P) (s : Bool)
      → st'.cells d.audio_block.audio_buffer ≡ st.cells d.audio_block.audio_buffer
      → (buffer_mixdown P st' output d s []).0 ≡ (buffer_mixdown P st output d s []).0
  unfolding buffer_mixdown
  buffer_mixdown-Keeps st st' output d s h = rw h

  pub mixed_output-Keeps :
      (st st' : Store P) (receiver : Text) (incoming : Incoming P) (output : P.Buffer)
      → Keeps P st st'
      → InStore st.next incoming
      → mixed_output st' receiver incoming output ≡ mixed_output st receiver incoming output
  mixed_output-Keeps st st' receiver [] output k h = refl
  mixed_output-Keeps st st' receiver ((name, d) ∷ rest) output k h =
      mixed_output-Keeps st st' receiver rest _ k h.1
      ∙ ap (mixed_output st receiver rest) (
          buffer_mixdown-Keeps st st' output d (text_eq name receiver)
            (k.same d.audio_block.audio_buffer h.0))
