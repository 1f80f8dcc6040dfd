-- ===== src/Writer/Runs.antt =====
-- A session's writer (crates/et-core/src/backed_writer.rs) over any sequence of whole writes and of
-- its other operations, from its creation. A reservation that is committed later, as an output worker
-- does it, is not among these calls.
use et_rs.Prelude.{Result, ok, err, ◌>>=◌, ℤ, ℕ, Bool, false, List, [], ◌∷◌}
use et_rs.Crypto.{Sodium, IsSodium, ProofError, CryptoHandler, rekey}
use et_rs.Writer.{BackedWriter, new, write_packet, acknowledge, revive, reset, invalidate}
use et_rs.Writer.Bounds.{
  IsBounded, acknowledge-IsBounded, revive-IsBounded, invalidate-IsBounded, write_packet-IsBounded,
  new-IsBounded,
}

pub data Call : Type 0 where
  writes : ℕ → List ℕ → Call
  acknowledges : ℤ → Call
  revives : Call
  invalidates : Call
  resets : List ℕ → Call

abbrev pub or_kept : BackedWriter → Result BackedWriter ProofError → BackedWriter
or_kept w (ok w') = w'
or_kept w (err e) = w

-- A reset that fails leaves the writer.
unfoldable pub step : Sodium → BackedWriter → Call → BackedWriter
step s w (writes header payload) = (write_packet s w header payload).0
step s w (acknowledges a) = acknowledge w a
step s w revives = revive w
step s w invalidates = invalidate w
step s w (resets salt) = or_kept w (reset s w salt)

unfoldable pub run : Sodium → BackedWriter → List Call → BackedWriter
run s w [] = w
run s w (c ∷ cs) = run s (step s w c) cs

rekeyed-IsBounded :
    (w : BackedWriter) (r : Result CryptoHandler ProofError)
    → IsBounded w
    → IsBounded (or_kept w (r >>= λ crypto. ok (new crypto false)))
rekeyed-IsBounded w (ok crypto) b = new-IsBounded crypto false
rekeyed-IsBounded w (err e) b = b

reset-IsBounded :
    (s : Sodium) (w : BackedWriter) (salt : List ℕ)
    → IsBounded w
    → IsBounded (or_kept w (reset s w salt))
unfolding reset new
reset-IsBounded s w salt b = unfold new in rekeyed-IsBounded w (rekey s w.crypto salt) b

step-IsBounded :
    (s : Sodium) → IsSodium s → (w : BackedWriter) (c : Call) → IsBounded w → IsBounded (step s w c)
unfolding step
step-IsBounded s laws w (writes header payload) b = write_packet-IsBounded s laws w header payload b
step-IsBounded s laws w (acknowledges a) b = acknowledge-IsBounded w a b
step-IsBounded s laws w revives b = revive-IsBounded w b
step-IsBounded s laws w invalidates b = invalidate-IsBounded w b
step-IsBounded s laws w (resets salt) b = reset-IsBounded s w salt b

run-IsBounded :
    (s : Sodium)
    → IsSodium s
    → (w : BackedWriter) (calls : List Call) → IsBounded w
    → IsBounded (run s w calls)
unfolding run
run-IsBounded s laws w [] b = b
run-IsBounded s laws w (c ∷ calls) b =
    run-IsBounded s laws (step s w c) calls (step-IsBounded s laws w c b)

-- Whatever packets are written whole, and whatever is acknowledged, revived, invalidated and reset,
-- the counters of a writer that was new stay true to its backup, and these caps hold: at most 64 MiB
-- of history while connected and 76 MiB at any time, and, counted as held for a peer that is away,
-- at most 64 MiB and the length of one tag, in at most 262144 packets.
pub run-new-IsBounded :
    (s : Sodium)
    → IsSodium s
    → (crypto : CryptoHandler) (connected : Bool) (calls : List Call)
    → IsBounded (run s (new crypto connected) calls)
run-new-IsBounded s laws crypto connected calls =
    run-IsBounded s laws (new crypto connected) calls (new-IsBounded crypto connected)
