-- ===== src/Tun2socks/Kept.antt =====
-- tun2socks.c: the event loop, and what its handlers keep.
use matador.Base.{
  ◌≡◌, refl, arith, true, false, not, List, [], ◌∷◌, Bool-cases, inl, inr, Runs-some, Runs-bind,
  Runs-if,
}
use matador.Tun2socks.TakenDown.{require-Runs}
use matador.Tun2socks.Setup.{is_ipv4}
use matador.Tun2socks.Begin.{lwip_init, set_tcp_timer, tcp_tmr, exec, Globals}
use matador.Tun2socks.Loop.{
  calling, LwipStart, netif_set_up, lwip_init_job_hadler, LoopEvent, signal, device_error, timer,
  handle, handle_all, event_loop,
}
use matador.Tun2socks.Released.{
  replay, held, Holds, calling-Holds, Keeps, terminate-Keeps, failed_after-Keeps, listen-Keeps,
}

-- The state in which the event loop begins.
pub record IsReady (g : Globals) : Type 0 where
  pub going : g.quitting ≡ false
  pub no_netif : g.have_netif ≡ false
  pub no_listener : g.has_listener ≡ false
  pub no_listener_ip6 : g.has_listener_ip6 ≡ false
  pub ipaddr_4 : is_ipv4 g.processed.netif_ipaddr ≡ true
  pub netmask_4 : is_ipv4 g.processed.netif_netmask ≡ true
  pub holds : Holds g

job-Keeps : (a : LwipStart) (g : Globals) → IsReady g → Keeps (lwip_init_job_hadler a g)
unfolding lwip_init_job_hadler replay
job-Keeps a g i =
    require-Runs _ _
      (ground
        (arith, i.going, i.no_netif, i.no_listener, i.no_listener_ip6, i.ipaddr_4, i.netmask_4))
      (Runs-if (not a.netif_added) _ _ (λ _. failed_after-Keeps g (lwip_init ∷ []) i.holds refl)
        λ _. listen-Keeps a (netif_set_up g) i.no_listener i.no_listener_ip6 (
          calling-Holds g _ _ i.holds (elim (Bool-cases g.has_ip6addr) [
            | inl e ↦ rw (e, i.no_listener, i.no_listener_ip6, i.no_netif) refl
            | inr e ↦ rw (e, i.no_listener, i.no_listener_ip6, i.no_netif) refl
          ])))

handle-Keeps : (e : LoopEvent) (g : Globals) → g.quitting ≡ false → Holds g → Keeps (handle e g)
unfolding handle replay
handle-Keeps signal g h k = require-Runs _ _ (ground (arith, h)) (terminate-Keeps g h k)
handle-Keeps device_error g h k = require-Runs _ _ (ground (arith, h)) (terminate-Keeps g h k)
handle-Keeps timer g h k =
    require-Runs _ _ (ground (arith, h))
      (Runs-some _ (calling-Holds g (set_tcp_timer ∷ tcp_tmr ∷ []) (held g) k refl))

handle_all-Keeps : (es : List LoopEvent) (g : Globals) → Holds g → Keeps (handle_all es g)
unfolding handle_all
handle_all-Keeps [] g k = Runs-some g k
handle_all-Keeps (e ∷ es) g k =
    Runs-if g.quitting _ _ (λ _. Runs-some g k)
      λ h.
        Runs-bind (λ g'. handle_all es g') (handle-Keeps e g h k)
          λ g' _ k'. handle_all-Keeps es g' k'

pub event_loop-Keeps :
    (a : LwipStart) (es : List LoopEvent) (g : Globals) → IsReady g → Keeps (event_loop a es g)
unfolding event_loop replay
event_loop-Keeps a es g i =
    let i' : IsReady (calling (exec ∷ []) g) = record {
      going = i.going;
      no_netif = i.no_netif;
      no_listener = i.no_listener;
      no_listener_ip6 = i.no_listener_ip6;
      ipaddr_4 = i.ipaddr_4;
      netmask_4 = i.netmask_4;
      holds = calling-Holds g (exec ∷ []) (held g) i.holds refl;
    } in
    Runs-bind (handle_all es) (job-Keeps a (calling (exec ∷ []) g) i')
      λ g' _ k. handle_all-Keeps es g' k
