-- ===== src/Control/Probes.antt =====
-- A probe of the path's size, from the client to the server and back.
use jammer_netz.Base.{
  ℕ, ◌≡◌, ◌<◌, ◌≤◌, refl, true, Bool, none, some, leb, ltb, ◌==◌, if◌then◌else◌, arith,
}
use jammer_netz.Mtu.{Discovery, acknowledge}
use jammer_netz.Control.{
  JsonLibrary, JsonLaws, mtu_probe_v1, answer_probe, process_control_message, receive_control,
  int_max,
}

module _ (Json : Type 0) (J : JsonLibrary Json) (L : JsonLaws Json J) where
  answer_probe-probe_json :
      (i s padding received : ℕ)
      → answer_probe Json J (J.at (J.probe_json i s padding) mtu_probe_v1) received
        ≡ (if s == received then some (J.ack_json i received) else none)
  unfolding answer_probe
  answer_probe-probe_json i s padding received =
      let (has, unsigned, value) = L.probe_id i s padding in
      let (has', integer, equals) = L.probe_size i s padding in
      rw (L.probe_object i s padding, has, unsigned, value, has', integer, equals received) refl

  receive_control-ack_json :
      (i s now : ℕ) (d : Discovery)
      → 0 < s
      → s ≤ int_max
      → receive_control Json J (J.ack_json i s) now d ≡ (acknowledge d i s now).1
  unfolding receive_control
  receive_control-ack_json i s now d h h' =
      let (has, unsigned, value) = L.ack_id i s in
      let (has', integer, bytes) = L.ack_size i s h in
      let fits : leb s int_max ≡ true = ground (arith, h') in
      let positive : ltb 0 s ≡ true = ground (arith, h) in
      rw
        (
          L.ack_has i s,
          L.ack_object i s,
          has,
          unsigned,
          value,
          has',
          integer,
          bytes,
          positive,
          fits,
        )
        refl

  -- The server answers a probe exactly when the datagram had the size that the probe names, with an
  -- acknowledgement of that size under the probe's number, and keeps its configuration; the client
  -- takes the acknowledgement of a positive size in the range of an `int` as one of its search.
  pub process_control_message-probe_json :
      (i s padding received now : ℕ) (use_fec : Bool) (d : Discovery)
      → 0 < received
      → received ≤ int_max
      → (process_control_message Json J (J.probe_json i s padding) received use_fec
          ≡ some (use_fec, (if s == received then some (J.ack_json i received) else none)))
        × (receive_control Json J (J.ack_json i received) now d ≡ (acknowledge d i received now).1)
  unfolding process_control_message
  process_control_message-probe_json i s padding received now use_fec d h h' = (
    rw
        (
          L.probe_only i s padding,
          L.probe_has i s padding,
          answer_probe-probe_json i s padding received,
        )
        refl,
    receive_control-ack_json i received now d h h',
  )
