-- ===== src/Realtime/Manager/Sse.antt =====
-- `ConnID` of an SSE client reads the clock, so it names another connection at each call.
use Prim.Native.String.{◌++◌}
use text.Mathlib.TextLemmas.{append_cancel_left}
use krampus.Prelude.{ℕ, String, some, ◌≡◌, ◌≢◌, arith, eq_iff, str_eq_refl}
use krampus.Domain.Message.{GoLib}
use krampus.Realtime.Client.{SseClient, sse, conn_id}
use krampus.Realtime.Manager.{Manager, register, unregister}
use krampus.Realtime.Manager.Lookup.{
  registered, subscribed, client_room, client_user, id_at, registered-register, subscribed-register,
  registered-unregister, subscribed-unregister,
}

clients-register :
    (lib : GoLib) (t₁ t₂ c : ℕ) (m : Manager) → (register lib t₁ t₂ c m).clients ≡ m.clients
unfolding register
clients-register lib t₁ t₂ c m = ground arith

sse_id : (lib : GoLib) (s : SseClient) → ℕ → String
sse_id lib s t = "sse-" ++ (s.user_id ++ ("-" ++ lib.format_int t))

sse_id_eq :
    (lib : GoLib) (c t : ℕ) (s : SseClient) (m : Manager)
    → m.clients c ≡ sse s
    → id_at lib m c t ≡ sse_id lib s t
unfolding conn_id sse_id
sse_id_eq lib c t s m e = rw (e, conn_id)

sse_id-ne :
    (lib : GoLib) (s : SseClient) (t u : ℕ)
    → lib.format_int t ≢ lib.format_int u
    → sse_id lib s t ≢ sse_id lib s u
unfolding sse_id
sse_id-ne lib s t u ne e = ne (
    append_cancel_left "-" _ _ (append_cancel_left s.user_id _ _ (append_cancel_left "sse-" _ _ e)))

-- An SSE client that registers and unregisters at times with other texts stays in both indices:
-- `Unregister` looks for connection ids that were never used.
pub unregister-leaves_sse :
    (lib : GoLib) (c : ℕ) (s : SseClient) (m : Manager) (t₁ t₂ u₁ u₂ : ℕ)
    → m.clients c ≡ sse s
    → lib.format_int t₁ ≢ lib.format_int u₁
    → lib.format_int t₂ ≢ lib.format_int u₂
    → let m' = unregister lib u₁ u₂ c (register lib t₁ t₂ c m) in
      (registered (client_user m c) (id_at lib m c t₁) m' ≡ some c)
      × (subscribed (client_room m c) (client_user m c) (id_at lib m c t₂) m' ≡ some c)
unregister-leaves_sse lib c s m t₁ t₂ u₁ u₂ e ne₁ ne₂ =
    let r = register lib t₁ t₂ c m in
    (
      ground (
        arith,
        clients-register lib t₁ t₂ c m,
        registered-unregister lib u₁ u₂ c r (client_user m c) (id_at lib m c t₁),
        registered-register lib t₁ t₂ c m (client_user m c) (id_at lib m c t₁),
        str_eq_refl (client_user m c),
        str_eq_refl (id_at lib m c t₁),
        eq_iff (id_at lib m c u₁) (id_at lib m c t₁),
        sse_id_eq lib c t₁ s m e,
        sse_id_eq lib c u₁ s m e,
        sse_id-ne lib s t₁ u₁ ne₁,
      ),
      ground (
        arith,
        clients-register lib t₁ t₂ c m,
        subscribed-unregister lib u₁ u₂ c r (client_room m c) (client_user m c) (id_at lib m c t₂),
        subscribed-register lib t₁ t₂ c m (client_room m c) (client_user m c) (id_at lib m c t₂),
        str_eq_refl (client_room m c),
        str_eq_refl (client_user m c),
        str_eq_refl (id_at lib m c t₂),
        eq_iff (id_at lib m c u₂) (id_at lib m c t₂),
        sse_id_eq lib c t₂ s m e,
        sse_id_eq lib c u₂ s m e,
        sse_id-ne lib s t₂ u₂ ne₂,
      ),
    )
