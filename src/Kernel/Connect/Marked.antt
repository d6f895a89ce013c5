-- ===== src/Kernel/Connect/Marked.antt =====
-- crates/cfc-ebpf/src/main.rs: which sockets the hooks mark past the queue, and which they refuse.
use colony_firewall_control.Prelude.{
  ℕ, ◌≡◌, ◌≢◌, ◌<◌, ◌↔◌, ◌⊎◌, Bool, inl, inr, not, ◌&&◌, true, false, ltb, ◌==◌, if◌then◌else◌,
  is_some, arith, Bool-cases, ==_iff,
}
use colony_firewall_control.Prelude.Maps.{get}
use colony_firewall_control.Kernel.{Kernel}
use colony_firewall_control.Kernel.Connect.{
  Call, want, granted, mark_decision, connect_verdict, ipproto_tcp,
}

-- The call may end with the daemon's mark on its socket.
abbrev pub MayMark : Call → Kernel → Type 0
MayMark call k =
    ((call.so_mark ≡ 0) ⊎ (call.so_mark ≡ k.fast_allow_mark))
    × (call.protocol ≡ ipproto_tcp)
    × (is_some (get call.tgid k.fast_allow) ≡ true)
    × (call.boot_ns < k.fast_allow_until)

abbrev foreign : Call → Kernel → Bool
foreign call k = not (call.so_mark == 0) && not (call.so_mark == k.fast_allow_mark)

so_mark_lem :
    (call : Call) (family : ℕ) (k : Kernel)
    → k.fast_allow_mark ≢ 0
    → call.readable ≡ true
    → call.settable ≡ true
    → (connect_verdict call family true k).proceeds ≡ true
    → (connect_verdict call family true k).so_mark
      ≡ (if foreign call k then call.so_mark else want call k)
unfolding connect_verdict mark_decision
so_mark_lem call family k armed readable settable goes = ground arith

want_cases :
    (call : Call) (k : Kernel)
    → ((want call k ≡ k.fast_allow_mark)
        × (call.protocol ≡ ipproto_tcp)
        × (is_some (get call.tgid k.fast_allow) ≡ true)
        × (call.boot_ns < k.fast_allow_until))
      ⊎ ((want call k ≡ 0) × ((granted call k && ltb call.boot_ns k.fast_allow_until) ≡ false))
want_cases call k = elim (Bool-cases (granted call k && ltb call.boot_ns k.fast_allow_until)) [
  | inl h ↦ inl (ground arith, ground arith, ground arith, ground arith)
  | inr h ↦ inr (ground arith, h)
]

not_foreign :
    (call : Call) (k : Kernel)
    → foreign call k ≡ false
    → (call.so_mark ≡ 0) ⊎ (call.so_mark ≡ k.fast_allow_mark)
not_foreign call k h = elim (Bool-cases (call.so_mark == 0)) [
  | inl e ↦ inl ((==_iff _ _).0 e)
  | inr e ↦ inr (ground arith)
]

foreign_clean :
    (call : Call) (k : Kernel)
    → foreign call k ≡ true
    → (call.so_mark ≡ 0) ⊎ (call.so_mark ≡ k.fast_allow_mark)
    → ⊥
foreign_clean call k h (inl e) = ground arith
foreign_clean call k h (inr e) = ground arith

-- Where the fast path is armed and the socket's mark can be read and set, a connect() that goes on
-- leaves the daemon's mark on the socket exactly if the socket is TCP and bears no mark of another,
-- the process holds a grant, and the deadline lies ahead. Otherwise the socket is left with no mark,
-- or with the mark of another that it bore.
pub connect_verdict-so_mark :
    (call : Call) (family : ℕ) (k : Kernel)
    → k.fast_allow_mark ≢ 0
    → call.readable ≡ true
    → call.settable ≡ true
    → (connect_verdict call family true k).proceeds ≡ true
    → let after = (connect_verdict call family true k).so_mark in
      ((after ≡ k.fast_allow_mark) ↔ MayMark call k)
      × ((after ≡ k.fast_allow_mark)
          ⊎ (after ≡ 0)
          ⊎ ((after ≡ call.so_mark) × (call.so_mark ≢ 0) × (call.so_mark ≢ k.fast_allow_mark)))
connect_verdict-so_mark call family k armed readable settable goes =
    let after = so_mark_lem call family k armed readable settable goes in
    elim (Bool-cases (foreign call k)) [
      | inl h ↦ (
        (λ e. absurd (ground arith), λ m. absurd (foreign_clean call k h m.0)),
        inr (inr (ground arith, ground arith, ground arith)),
      )
      | inr h ↦ elim (want_cases call k) [
        | inl (w, tcp, grant, ahead) ↦ (
          (λ _. (not_foreign call k h, tcp, grant, ahead), λ _. ground arith),
          inl (ground arith),
        )
        | inr (w, refused) ↦
            ((λ e. absurd (ground arith), λ m. absurd (ground arith)), inr (inl (ground arith)))
      ]
    ]
