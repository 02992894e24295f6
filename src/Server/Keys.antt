-- ===== src/Server/Keys.antt =====
-- The clients keep their names apart and their queues in order.
use jammer_netz.Base.{
  ℕ, ◌<◌, ◌≡◌, sym, subst, false, [], ◌∷◌, arith, Text, text_eq, text_eq_refl, text_eq→eq,
  Bool-cases, inl, inr, u64_mod,
}
use jammer_netz.Platform.{Platform}
use jammer_netz.Package.{AudioData, Store, counter}
use jammer_netz.ClientState.Intake.{push-OrderedQueue}
use jammer_netz.Mixer.{Incoming}
use jammer_netz.Scheduler.{Clients, ServerBufferConfig, process}
use jammer_netz.Scheduler.Waiting.{settled, waits, process-waits}
use jammer_netz.Scheduler.Popping.{IsFresh, IsKeyed}
use jammer_netz.Scheduler.Serving.{Outcomes, process-Outcomes, settled-IsKeyed}
use jammer_netz.Scheduler.Depth.{AllOrdered}
use jammer_netz.Server.{Server, insert_client, push_to}

module _ (P : Platform) where
  insert_client-IsFresh :
      (other name : Text) (cs : Clients P)
      → text_eq other name ≡ false
      → IsFresh P other cs
      → IsFresh P other (insert_client P name cs)
  insert_client-IsFresh other name [] h f = (h, tt)
  insert_client-IsFresh other name ((name', c) ∷ rest) h f =
      elim (Bool-cases (text_eq name name')) [
        | inl e ↦ rw e f
        | inr e ↦ rw e (f.0, insert_client-IsFresh other name rest h f.1)
      ]

  text_eq-flip : (s t : Text) → text_eq s t ≡ false → text_eq t s ≡ false
  text_eq-flip s t h = elim (Bool-cases (text_eq t s)) [
    | inl e ↦ absurd (ground (arith, text_eq→eq t s e, text_eq_refl t, h))
    | inr e ↦ e
  ]

  pub insert_client-IsKeyed :
      (name : Text) (cs : Clients P) → IsKeyed P cs → IsKeyed P (insert_client P name cs)
  insert_client-IsKeyed name [] u = (tt, tt)
  insert_client-IsKeyed name ((name', c) ∷ rest) u = elim (Bool-cases (text_eq name name')) [
    | inl e ↦ rw e u
    | inr e ↦ rw e (
      insert_client-IsFresh name' name rest (text_eq-flip name name' e) u.0,
      insert_client-IsKeyed name rest u.1,
    )
  ]

  pub insert_client-AllOrdered :
      (name : Text) (cs : Clients P) → AllOrdered P cs → AllOrdered P (insert_client P name cs)
  insert_client-AllOrdered name [] v = (tt, tt)
  insert_client-AllOrdered name ((name', c) ∷ rest) v = elim (Bool-cases (text_eq name name')) [
    | inl e ↦ rw e v
    | inr e ↦ rw e (v.0, insert_client-AllOrdered name rest v.1)
  ]

  push_to-IsFresh :
      (clock : ℕ → P.Float) (count : ℕ) (p : AudioData P) (name other : Text) (cs : Clients P)
      (st : Store P)
      → IsFresh P other cs
      → IsFresh P other (push_to P clock count p name cs st).1
  push_to-IsFresh clock count p name other [] st f = tt
  push_to-IsFresh clock count p name other ((name', c) ∷ rest) st f =
      elim (Bool-cases (text_eq name name')) [
        | inl e ↦ rw e f
        | inr e ↦ rw e (f.0, push_to-IsFresh clock count p name other rest st f.1)
      ]

  pub push_to-IsKeyed :
      (clock : ℕ → P.Float) (count : ℕ) (p : AudioData P) (name : Text) (cs : Clients P)
      (st : Store P)
      → IsKeyed P cs
      → IsKeyed P (push_to P clock count p name cs st).1
  push_to-IsKeyed clock count p name [] st u = tt
  push_to-IsKeyed clock count p name ((name', c) ∷ rest) st u =
      elim (Bool-cases (text_eq name name')) [
        | inl e ↦ rw e u
        | inr e ↦ rw e (
          push_to-IsFresh clock count p name name' rest st u.0,
          push_to-IsKeyed clock count p name rest st u.1,
        )
      ]

  pub push_to-AllOrdered :
      (clock : ℕ → P.Float) (count : ℕ) (p : AudioData P) (name : Text) (cs : Clients P)
      (st : Store P)
      → counter P p < u64_mod
      → AllOrdered P cs
      → AllOrdered P (push_to P clock count p name cs st).1
  push_to-AllOrdered clock count p name [] st k v = tt
  push_to-AllOrdered clock count p name ((name', c) ∷ rest) st k v =
      elim (Bool-cases (text_eq name name')) [
        | inl e ↦ rw e (push-OrderedQueue P clock count p c st k v.0, v.1)
        | inr e ↦ rw e (v.0, push_to-AllOrdered clock count p name rest st k v.1)
      ]

  Outcomes-IsFresh :
      (incoming : Incoming P) (name : Text) (cs cs' : Clients P)
      → Outcomes P incoming cs cs'
      → IsFresh P name cs
      → IsFresh P name cs'
  Outcomes-IsFresh incoming name [] [] o f = tt
  Outcomes-IsFresh incoming name [] (c' ∷ cs') o f = absurd o
  Outcomes-IsFresh incoming name (c ∷ cs) [] o f = tt
  Outcomes-IsFresh incoming name ((n, c) ∷ cs) ((n', c') ∷ cs') o f =
      (rw o.0 f.0, Outcomes-IsFresh incoming name cs cs' o.2 f.1)

  Outcomes-IsKeyed :
      (incoming : Incoming P) (cs cs' : Clients P)
      → Outcomes P incoming cs cs'
      → IsKeyed P cs
      → IsKeyed P cs'
  Outcomes-IsKeyed incoming [] [] o u = tt
  Outcomes-IsKeyed incoming [] (c' ∷ cs') o u = absurd o
  Outcomes-IsKeyed incoming (c ∷ cs) [] o u = tt
  Outcomes-IsKeyed incoming ((n, c) ∷ cs) ((n', c') ∷ cs') o u = (
    Outcomes-IsFresh incoming n' cs cs' o.2 (rw o.0 u.0),
    Outcomes-IsKeyed incoming cs cs' o.2 u.1,
  )

  pub process-IsKeyed :
      (config : ServerBufferConfig) (now : ℕ) (s : Server P)
      → IsKeyed P s.clients
      → IsKeyed P (process P config now s.clients s.mixer s.store).1
  process-IsKeyed config now s u =
      elim (Bool-cases (waits P config (settled P config now s.clients))) [
        | inl w ↦
            subst (IsKeyed P) (sym (process-waits P config now s.clients s.mixer s.store w).0)
              (settled-IsKeyed P config now s.clients u)
        | inr w ↦
            Outcomes-IsKeyed (process P config now s.clients s.mixer s.store).0.incoming
              (settled P config now s.clients) _
              (process-Outcomes P config now s.clients s.mixer s.store u w).0
              (settled-IsKeyed P config now s.clients u)
      ]
