-- ===== src/Startup/Device.antt =====
-- The port that a sequence of calls leaves, by the documentation of rte_ethdev: a port starts when
-- every queue that it was configured with has been set up.
use dpdk_starter.Base.{
  ℕ, zero, suc, Bool, true, false, ◌&&◌, ◌||◌, List, [], ◌∷◌, ◌==◌, if◌then◌else◌,
}
use dpdk_starter.Startup.{Call, Env, dev_start, dev_configure, rx_queue_setup, tx_queue_setup}

pub record Device : Type 0 where
  pub nb_rx : ℕ
  pub nb_tx : ℕ
  pub rx_set : List ℕ
  pub tx_set : List ℕ
  pub started : Bool

abbrev pub unconfigured : Device
unconfigured = record { nb_rx = 0; nb_tx = 0; rx_set = []; tx_set = []; started = false }

abbrev pub has : List ℕ → ℕ → Bool
has [] q = false
has (x ∷ xs) q = x == q || has xs q

-- Every queue below `n` is set up.
abbrev pub covers : ℕ → List ℕ → Bool
covers zero queues = true
covers (suc n) queues = has queues n && covers n queues

abbrev pub apply_call : ℕ → Call → Device → Device
apply_call port (dev_configure p rx tx) d =
    if p == port then record unconfigured { nb_rx = rx; nb_tx = tx } else d
apply_call port (rx_queue_setup p q) d = if p == port then record d { rx_set = q ∷ d.rx_set } else d
apply_call port (tx_queue_setup p q) d = if p == port then record d { tx_set = q ∷ d.tx_set } else d
apply_call port (dev_start p) d =
    if p == port && covers d.nb_rx d.rx_set && covers d.nb_tx d.tx_set
    then record d { started = true }
    else d
apply_call port c d = d

-- The port after the calls, of which those that failed have no effect.
abbrev pub device : Env → ℕ → List Call → Device
device env port [] = unconfigured
device env port (c ∷ log) = let d = device env port log in if env c then apply_call port c d else d

-- The port is started with these numbers of queues.
unfoldable pub is_up : Env → ℕ → ℕ → ℕ → List Call → Bool
is_up env port rx tx log =
    let d = device env port log in d.started && d.nb_rx == rx && d.nb_tx == tx
