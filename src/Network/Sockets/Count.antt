-- ===== src/Network/Sockets/Count.antt =====
-- network.go: establishedTCPConnCount against the sum over the processes.
use systats.Go.Os.{Os}
use systats.Prelude.Text.{Text}
