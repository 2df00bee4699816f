-- ===== src/Socket/Ssl/Waits.antt =====
-- Waits and the state of the connection in the transfers of luasocket's ssl.c.
use lilush.Common.{◌≡◌, refl, inl, inr, Bool, List, Option}
use lilush.Socket.Ssl.{State, lsec_state_connected, Ssl}
use lilush.Socket.Ssl.Reply.{Reply, waited}
use lilush.Socket.Ssl.Rounds.{Wants}
use lilush.Socket.Ssl.Transfer.{Transfer, transfer_answer, transfer_loop, transfer}

module _ {A : Type 0} (nothing : A) (of : Reply → A) (ends : Bool) where
  -- A wait that ends in time changes nothing.
  pub transfer_answer-Wants :
      (reply : Reply) (c : Ssl) (rest : List Reply) (more : Option (Transfer A))
      → Wants reply
      → transfer_answer nothing of ends reply.error reply c rest more ≡ more
  unfolding transfer_answer waited
  transfer_answer-Wants reply c rest more w = elim w.wants [
    | inl e ↦ rw (e, w.ready) refl
    | inr e ↦ rw (e, w.ready) refl
  ]

  pub transfer_open :
      (st : State) (replies : List Reply) (c : Ssl)
      → st ≡ lsec_state_connected
      → transfer nothing of ends st replies c ≡ transfer_loop nothing of ends replies c
  unfolding transfer
  transfer_open st replies c e = rw e refl
