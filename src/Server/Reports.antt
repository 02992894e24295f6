-- ===== src/Server/Reports.antt =====
-- When the sender reports the statistics and the session to a client.
use jammer_netz.Base.{
  ℕ, ◌+◌, ◌%◌, ◌<◌, ◌≡◌, refl, sym, ◌∙◌, Bool, true, false, ◌&&◌, ◌||◌, Option, none, some, is_some,
  ltb, u64_mod, add64, add64-eq, List, [], ◌∷◌, ◌==◌, arith, if◌then◌else◌, Text, text_eq,
  text_eq_refl, text_eq→eq, Bool-cases, inl, inr,
}
use jammer_netz.Platform.{Platform}
use jammer_netz.Package.{supports_split_session_info}
use jammer_netz.Mixer.{OutgoingPackage}
use jammer_netz.Server.{package_count, count_package, send, client_infos, add_info, unless_empty}
use jammer_netz.ClientState.{snapshot, quality_info}
use jammer_netz.Queue.{StreamQualityData}
use jammer_netz.Scheduler.{Clients}

module _ (P : Platform) where
  -- The counters after a list of packages, each sent while the clients were in some state.
  abbrev pub counters_after :
      List (Clients P × OutgoingPackage P) → List (Text × ℕ) → List (Text × ℕ)
  counters_after [] counters = counters
  counters_after ((cs, p) ∷ ps) counters = counters_after ps (send P cs p counters).1

  -- How many packages of a list go to an address.
  abbrev pub packages_to : Text → List (Clients P × OutgoingPackage P) → ℕ
  packages_to name [] = 0
  packages_to name ((cs, p) ∷ ps) =
      if text_eq name p.target_address then packages_to name ps + 1 else packages_to name ps

  -- Some client has packets in its queue and statistics to tell.
  abbrev pub any_reports : Clients P → Bool
  any_reports [] = false
  any_reports ((name, c) ∷ rest) =
      ltb 0 (snapshot P c).size && is_some (quality_info P c) || any_reports rest

  unless_empty-client_infos :
      (cs : Clients P)
      → unless_empty P (client_infos P cs)
        ≡ (if any_reports cs then some (client_infos P cs) else none)
  unfolding client_infos
  unless_empty-client_infos [] = refl
  unless_empty-client_infos ((name, c) ∷ rest) =
      by_quality (ltb 0 (snapshot P c).size) (quality_info P c) (client_infos P rest)
        (any_reports rest) (unless_empty-client_infos rest)
    where
      by_quality :
          (sized : Bool) (quality : Option (StreamQualityData P))
          (infos : List (Text × StreamQualityData P)) (any : Bool)
          → unless_empty P infos ≡ (if any then some infos else none)
          → let infos' = if sized then add_info P name quality infos else infos in
            unless_empty P infos' ≡ (if sized && is_some quality || any then some infos' else none)
      by_quality false quality infos any e = e
      by_quality true none infos any e = e
      by_quality true (some x) infos any e = refl

  text_eq-apart :
      (name name' other : Text)
      → name ≡ name'
      → text_eq other name' ≡ false
      → text_eq name other ≡ false
  text_eq-apart name name' other s e = elim (Bool-cases (text_eq name other)) [
    | inl t ↦
        let back : name ≡ other = text_eq→eq name other t in
        absurd (ground (arith, rw (sym back ∙ s) at e, text_eq_refl name'))
    | inr t ↦ t
  ]

  package_count-count_package :
      (name other : Text) (counters : List (Text × ℕ))
      → package_count P name (count_package P other counters) ≡ (
          if text_eq name other
          then add64 (package_count P name counters) 1
          else package_count P name counters)
  package_count-count_package name other [] = ground (arith, add64-eq 0 1)
  package_count-count_package name other ((name', n) ∷ rest) =
      elim (Bool-cases (text_eq other name')) [
        | inl e ↦ rw (e, sym (text_eq→eq other name' e)) (ground arith)
        | inr e ↦ elim (Bool-cases (text_eq name name')) [
          | inl f ↦
              let same : name ≡ name' = text_eq→eq name name' f in
              let apart : text_eq name other ≡ false = text_eq-apart name name' other same e in
              rw (e, f, apart) refl
          | inr f ↦ rw (e, f) (package_count-count_package name other rest)
        ]
      ]

  package_count-after :
      (name : Text) (ps : List (Clients P × OutgoingPackage P)) (counters : List (Text × ℕ))
      → package_count P name counters + packages_to name ps < u64_mod
      → package_count P name (counters_after ps counters)
        ≡ package_count P name counters + packages_to name ps
  unfolding send
  package_count-after name [] counters h = omega arith
  package_count-after name ((cs, p) ∷ ps) counters h = ground (
    arith,
    package_count-after name ps (count_package P p.target_address counters),
    package_count-count_package name p.target_address counters,
    add64-eq (package_count P name counters) 1,
    h,
  )

  -- Every hundredth package to a client, from the first on, is due for a report: the number of
  -- packages that went to it before, fewer than 2^64 and whatever went to others in between, is a
  -- multiple of 100. The package goes out in any case. The statistics follow it exactly when it is
  -- due and some client has packets in its queue and statistics to tell; the session follows when
  -- it is due and the client's protocol version knows it.
  pub send-reports :
      (earlier : List (Clients P × OutgoingPackage P)) (clients : Clients P)
      (package' : OutgoingPackage P)
      → packages_to package'.target_address earlier < u64_mod
      → let (sent, _) = send P clients package' (counters_after earlier []) in
        let due = packages_to package'.target_address earlier % 100 == 0 in
        (sent.sent_package ≡ package')
        × (sent.client_info
            ≡ (if due && any_reports clients then some (client_infos P clients) else none))
        × (sent.with_session_info
            ≡ (due && supports_split_session_info package'.receiver_protocol_version))
  unfolding send
  send-reports earlier clients package' h =
      let n = packages_to package'.target_address earlier in
      let zero_left : 0 + n ≡ n = omega arith in
      let e =
        package_count-after package'.target_address earlier [] (omega (arith, h)) ∙ zero_left in
      rw e (refl, ground (arith, unless_empty-client_infos clients), refl)
