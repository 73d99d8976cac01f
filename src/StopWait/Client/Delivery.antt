-- ===== src/StopWait/Client/Delivery.antt =====
-- StopWaitClient.cpp: what reaches the file.
use reliable_data_transfer.Base.{
  ℕ, ◌*◌, true, List, [], some, subst, ◌≡◌, arith, take, All, take_all, not,
}
use reliable_data_transfer.DataManagers.{DataSink}
use reliable_data_transfer.DataManagers.Sinking.{Holds}
use reliable_data_transfer.Socket.{Recv}
use reliable_data_transfer.Socket.Genuine.{Fits, Arrives}
use reliable_data_transfer.Reception.{Serves, receive_while_inv, receive_while-Serves}
use reliable_data_transfer.StopWait.Client.{StopWaitClient, new_client, receive_one, recv_message}
use reliable_data_transfer.StopWait.Client.Accepting.{
  Delivers, in_turn, receive_one-Delivers, new_client-Delivers,
}

module _ (file : List ℕ) (fits : Fits file) where
  -- What the records say, for a reader: the file is a prefix, and whole at the end.
  Delivers-whole : (c : StopWaitClient) → Delivers file c → c.end ≡ true → Holds file c.sink
  Delivers-whole c d ended =
      subst (λ bytes. Holds bytes c.sink)
        (take_all (512 * c.ack_no) file (omega (arith, d.over ended))) d.holds

  -- Whatever the network delivers, loses, repeats, reorders or damages visibly, the client has no
  -- fault, its file holds the first `512 * ack_no` bytes of the sent file, and all of it once the
  -- worker has ended.
  pub stop_wait_delivers :
      (sink : DataSink) (rs : List Recv)
      → Holds [] sink
      → All (Arrives file) rs
      → (c : StopWaitClient) × (recv_message (new_client sink) rs ≡ some c)
        × Holds (take (512 * c.ack_no) file) c.sink
        × (c.end ≡ true → Holds file c.sink)
  unfolding recv_message
  stop_wait_delivers sink rs h a =
      let (c, e, d) =
        receive_while_inv (λ c. not c.end) receive_one file (Delivers file)
          (λ s r runs p ar.
            let (s', e', d', _) = receive_one-Delivers file fits s r p ar in (s', e', d'))
          (new_client sink) rs (new_client-Delivers file fits sink h) a in
      (c, e, d.holds, Delivers-whole c d)

  -- If moreover each packet of the transfer arrives after its predecessors have, the worker ends
  -- with the whole file.
  pub stop_wait_completes :
      (sink : DataSink) (rs : List Recv)
      → Holds [] sink
      → All (Arrives file) rs
      → Serves file 0 rs
      → (c : StopWaitClient) × (recv_message (new_client sink) rs ≡ some c)
        × (c.end ≡ true)
        × Holds file c.sink
  unfolding recv_message
  stop_wait_completes sink rs h a s =
      let (c, e, d, stopped) =
        receive_while-Serves (λ c. not c.end) receive_one file (Delivers file) (λ c. c.ack_no)
          (λ s r runs p ar. receive_one-Delivers file fits s r p ar)
          (λ c r runs d p. let (c', e', _, n) = in_turn file fits c r d p in (c', e', omega arith))
          (λ c d le. ground (arith, d.going)) 0 (new_client sink) rs
          (new_client-Delivers file fits sink h) (omega arith) a s in
      let ended : c.end ≡ true = ground arith in (c, e, ended, Delivers-whole c d ended)
