-- ===== src/Blake2s/Chunks.antt =====
-- The input of BLAKE2s in pieces (src/blake2s.c, `blake2s_update`).
use awg2_webui.Base.{ℕ, List, length}
use awg2_webui.Blake2s.{Blake2sState, absorb_all}

-- The whole of an input at once, from an empty buffer.
abbrev pub absorbed : Blake2sState → List ℕ → Blake2sState
absorbed st p = absorb_all (length p) st p
