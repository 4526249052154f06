-- ===== src/Notices/Agree.antt =====
-- What the workers read from their pipes agrees with server_list.json.
use proxy_for_distribution_s.Base.{
  ℕ, Text, codes, text_eq, Bool, true, false, ◌&&◌, if◌then◌else◌, List, [], ◌∷◌, ◌++◌, map, Option,
  some, get_elem?, set, length, All, All-get_elem?, All-set, ◌≡◌, refl, sym, subst, ap, ◌∙◌, arith,
  inl, inr, Bool-cases, Option-cases,
}
use proxy_for_distribution_s.Registry.{
  Server, Chunk, int, Json, IsFaithful, Gateway, Outcome, ok, failed, same, address_size, broadcast,
  set_server_down, set_server_up, login_server, logout_server, load_server_list, update_server_list,
}
use proxy_for_distribution_s.Registry.View.{
  Health, health, listing, Command, mark_down, mark_up, login, logout, run, after, run_failed,
  run-health, Outcome-cases,
}
use proxy_for_distribution_s.Notices.{
  Reply, registered, not_registered, logged_out, not_logged_out, notice_of, tell_all, tell,
  reply_and_tell, server_socket_read, server_reported, Turns, modulo, next_turn, client_waits,
  stops, Event, marks_down, marks_up, registers, reports, waits_client, signals, same_turns, happen,
  happen_all,
}
use proxy_for_distribution_s.Notices.Reading.{
  Agrees, is_alive, All-told, Agrees-notice, client-Agrees, stop-Agrees,
}

alive_if :
    (here : Bool) (h k : Option Health) (up : Bool)
    → is_alive h ≡ up
    → is_alive (if here then h else k) ≡ (if here then up else is_alive k)
alive_if true h k up e = e
alive_if false h k up e = refl

marked_down_pipes :
    (j : Json) (a : Server) (g : Gateway)
    → (set_server_down j a g).1 ≡ ok
    → (set_server_down j a g).0.pipes ≡ map (λ p. p ++ notice_of 3 address_size a) g.pipes
unfolding set_server_down load_server_list update_server_list broadcast
marked_down_pipes j a g e = ground arith

marked_up_pipes :
    (j : Json) (a : Server) (g : Gateway)
    → (set_server_up j a g).1 ≡ ok
    → (set_server_up j a g).0.pipes ≡ map (λ p. p ++ notice_of 2 address_size a) g.pipes
unfolding set_server_up load_server_list update_server_list broadcast
marked_up_pipes j a g e = ground arith

login_pipes : (j : Json) (a : Server) (g : Gateway) → (login_server j a g).0.pipes ≡ g.pipes
unfolding login_server load_server_list update_server_list
login_pipes j a g = ground arith

logout_pipes : (j : Json) (a : Server) (g : Gateway) → (logout_server j a g).0.pipes ≡ g.pipes
unfolding logout_server load_server_list update_server_list
logout_pipes j a g = ground arith

reply_and_tell-ok :
    (cs : List Chunk) (done refused : Reply) (r : Gateway × Outcome)
    → r.1 ≡ ok
    → (reply_and_tell cs done refused r).0 ≡ tell_all cs r.0
unfolding reply_and_tell
reply_and_tell-ok cs done refused (g, ok) e = refl
reply_and_tell-ok cs done refused (g, failed) e = absurd (cc)

reply_and_tell-failed :
    (cs : List Chunk) (done refused : Reply) (r : Gateway × Outcome)
    → r.1 ≡ failed
    → (reply_and_tell cs done refused r).0 ≡ r.0
unfolding reply_and_tell
reply_and_tell-failed cs done refused (g, ok) e = absurd (cc)
reply_and_tell-failed cs done refused (g, failed) e = refl

-- A report is of a server that does not accept connections.
abbrev pub IsBroken : Event → Type 0
IsBroken (marks_down a) = Unit
IsBroken (marks_up a) = Unit
IsBroken (registers token a) = Unit
IsBroken (reports reach a i) = if reach then ⊥ else Unit
IsBroken (waits_client locked) = Unit
IsBroken signals = Unit

-- Each worker's pipe agrees with the file.
abbrev pub AllAgree : Json → (Server → Bool) → Gateway → Type 0
AllAgree j v g = All (Agrees v (listing j g)) g.pipes

tell-AllAgree :
    (j : Json) (v : Server → Bool) (i : ℕ) (g g' : Gateway)
    → tell i (int 1 ∷ []) g ≡ some g'
    → AllAgree j v g
    → AllAgree j v g'
unfolding tell
tell-AllAgree j v i g g' e h = elim (Option-cases (get_elem? g.pipes i)) [
  | inl bad ↦ absurd (ground arith)
  | inr (p, at) ↦
      let told : Gateway = record g { pipes = set g.pipes i (p ++ int 1 ∷ []) } in
      let same : told ≡ g' = ground arith in
      subst (AllAgree j v) same (
        All-set (Agrees v (listing j g)) g.pipes i (p ++ int 1 ∷ []) h
          (client-Agrees (listing j g) p (All-get_elem? (Agrees v (listing j g)) g.pipes i p h at)))
]

client_waits-AllAgree :
    (j : Json) (v : Server → Bool) (locked : Bool) (t : Turns) (g : Gateway) (m : Turns × Gateway)
    → client_waits locked (t, g) ≡ some m
    → AllAgree j v g
    → AllAgree j v m.1
unfolding client_waits next_turn
client_waits-AllAgree j v locked t g m e h = elim (Bool-cases (locked && t.accept_flag)) [
  | inr skip ↦ let same : (t, g) ≡ m = ground arith in subst (λ x. AllAgree j v x.1) same h
  | inl go ↦ elim (Option-cases (modulo t.count (length g.pipes))) [
    | inl bad ↦ absurd (ground arith)
    | inr (count, turn) ↦ elim (Option-cases (tell count (int 1 ∷ []) g)) [
      | inl bad ↦ absurd (ground arith)
      | inr (g', told) ↦
          let same : g' ≡ m.1 = ground arith in
          subst (AllAgree j v) same (tell-AllAgree j v count g g' told h)
    ]
  ]
]

stops-AllAgree :
    (j : Json) (v : Server → Bool) (g : Gateway) → AllAgree j v g → AllAgree j v (stops g)
unfolding stops tell_all
stops-AllAgree j v g h =
    All-told (listing j g) (listing j g) (int 4 ∷ []) g.pipes (stop-Agrees (listing j g)) h

module _ {j : Json} (f : IsFaithful j) (v : Server → Bool) where
  -- After an operation that succeeded and a notice of it to every worker.
  told-AllAgree :
      (c : Command) (up : Bool) (a : Server) (g : Gateway)
      → is_alive (after c) ≡ up
      → (run j c a g).1 ≡ ok
      → AllAgree j v g
      → All
          (Agrees v (listing j (run j c a g).0))
          (map (λ p. p ++ notice_of (if up then 2 else 3) address_size a) g.pipes)
  told-AllAgree c up a g makes e h =
      All-told (listing j g) (listing j (run j c a g).0) _ g.pipes
        (λ p. Agrees-notice up address_size a (listing j g) (listing j (run j c a g).0) p (λ b.
          ap is_alive (run-health f a g c b e)
          ∙ alive_if (same a b) (after c) (health (listing j g) b) up makes))
        h

  kept-AllAgree :
      (c : Command) (a : Server) (g : Gateway)
      → (run j c a g).1 ≡ failed
      → AllAgree j v g
      → AllAgree j v (run j c a g).0
  kept-AllAgree c a g e h = subst (AllAgree j v) (sym (run_failed j a g c e)) h

  -- A command that tells the workers itself.
  marks-AllAgree :
      (c : Command) (up : Bool) (a : Server) (g : Gateway)
      → is_alive (after c) ≡ up
      → ((run j c a g).1 ≡ ok
          → (run j c a g).0.pipes
            ≡ map (λ p. p ++ notice_of (if up then 2 else 3) address_size a) g.pipes)
      → AllAgree j v g
      → AllAgree j v (run j c a g).0
  marks-AllAgree c up a g makes pipes h = elim (Outcome-cases (run j c a g).1) [
    | inl e ↦
        subst (All (Agrees v (listing j (run j c a g).0))) (sym (pipes e))
          (told-AllAgree c up a g makes e h)
    | inr e ↦ kept-AllAgree c a g e h
  ]

  -- A registration, which tells the workers after a command that does not.
  reply_and_tell-AllAgree :
      (c : Command) (up : Bool) (a : Server) (g : Gateway) (done refused : Reply)
      → is_alive (after c) ≡ up
      → (run j c a g).0.pipes ≡ g.pipes
      → AllAgree j v g
      → AllAgree j v
          (reply_and_tell
            (notice_of (if up then 2 else 3) address_size a)
            done
            refused
            (run j c a g)).0
  unfolding reply_and_tell tell_all
  reply_and_tell-AllAgree c up a g done refused makes pipes h =
      elim (Outcome-cases (run j c a g).1) [
        | inl e ↦ subst (AllAgree j v) (sym (reply_and_tell-ok _ done refused (run j c a g) e)) (
            subst
              (λ ps.
                All (Agrees v (listing j (run j c a g).0))
                  (map (λ p. p ++ notice_of (if up then 2 else 3) address_size a) ps))
              (sym pipes) (told-AllAgree c up a g makes e h))
        | inr e ↦
            subst (AllAgree j v) (sym (reply_and_tell-failed _ done refused (run j c a g) e))
              (kept-AllAgree c a g e h)
      ]

  server_socket_read-AllAgree :
      (token : Text) (a : Server) (g : Gateway)
      → AllAgree j v g
      → AllAgree j v (server_socket_read j token address_size a g).0
  unfolding server_socket_read run after
  server_socket_read-AllAgree token a g h = elim (Bool-cases (text_eq token (codes "login"))) [
    | inl e ↦
        rw (e, server_socket_read)
          (reply_and_tell-AllAgree login true a g registered not_registered refl (login_pipes j a g)
            h)
    | inr e ↦ elim (Bool-cases (text_eq token (codes "logout"))) [
      | inl e' ↦
          rw (e, e', server_socket_read)
            (reply_and_tell-AllAgree logout false a g logged_out not_logged_out refl
              (logout_pipes j a g) h)
      | inr e' ↦ rw (e, e', server_socket_read) h
    ]
  ]

  server_reported-AllAgree :
      (a : Server) (i : ℕ) (t : Turns) (g : Gateway) (m : Turns × Gateway)
      → same_turns t (server_reported j false a i g) ≡ some m
      → AllAgree j v g
      → AllAgree j v m.1
  unfolding server_reported run after
  server_reported-AllAgree a i t g m e h =
      let same : (set_server_down j a g).0 ≡ m.1 = ground arith in
      subst (AllAgree j v) same
        (marks-AllAgree mark_down false a g refl (marked_down_pipes j a g) h)

  happen-AllAgree :
      (e : Event) (t : Turns) (g : Gateway) (m : Turns × Gateway)
      → IsBroken e
      → happen j e (t, g) ≡ some m
      → AllAgree j v g
      → AllAgree j v m.1
  unfolding happen run after
  happen-AllAgree (marks_down a) t g m k e h =
      let same : (set_server_down j a g).0 ≡ m.1 = ground arith in
      subst (AllAgree j v) same
        (marks-AllAgree mark_down false a g refl (marked_down_pipes j a g) h)
  happen-AllAgree (marks_up a) t g m k e h =
      let same : (set_server_up j a g).0 ≡ m.1 = ground arith in
      subst (AllAgree j v) same (marks-AllAgree mark_up true a g refl (marked_up_pipes j a g) h)
  happen-AllAgree (registers token a) t g m k e h =
      let same : (server_socket_read j token address_size a g).0 ≡ m.1 = ground arith in
      subst (AllAgree j v) same (server_socket_read-AllAgree token a g h)
  happen-AllAgree (reports false a i) t g m k e h = server_reported-AllAgree a i t g m e h
  happen-AllAgree (reports true a i) t g m k e h = absurd k
  happen-AllAgree (waits_client locked) t g m k e h = client_waits-AllAgree j v locked t g m e h
  happen-AllAgree signals t g m k e h =
      let same : stops g ≡ m.1 = ground arith in subst (AllAgree j v) same (stops-AllAgree j v g h)

  -- The events of the main process and of its threads are taken one after the other, each as one step,
  -- though the source takes no lock; servers register with a whole address, a server that a worker
  -- reports as broken is, and jsoncpp reads back what it wrote. Each worker's pipe has only whole
  -- notices, and by the last one of each server, or by what held before the first where there is none,
  -- the server joins just where server_list.json has it as up. If that held at a moment, it holds
  -- after any events that follow.
  pub happen_all-AllAgree :
      (es : List Event) (m m' : Turns × Gateway)
      → All IsBroken es
      → happen_all j es m ≡ some m'
      → AllAgree j v m.1
      → AllAgree j v m'.1
  unfolding happen_all
  happen_all-AllAgree [] m m' k e h = let same : m ≡ m' = cc in subst (λ x. AllAgree j v x.1) same h
  happen_all-AllAgree (ev ∷ es) m m' k e h = elim (Option-cases (happen j ev m)) [
    | inl bad ↦ absurd (ground arith)
    | inr (m1, step) ↦
        happen_all-AllAgree es m1 m' k.1 (ground arith) (happen-AllAgree ev m.0 m.1 m1 k.0 step h)
  ]
