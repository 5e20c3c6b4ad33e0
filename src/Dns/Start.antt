-- ===== src/Dns/Start.antt =====
-- The end of Start of dnsdispatcher/dnsdispatcher.go.
use libersuite_panel.Listener.Start.{Error, Waited, cancelled, served}

-- The error of server.Shutdown after the end of the context, or that of ListenAndServe.
unfoldable pub start_result : Waited → Error → Error
start_result cancelled closed = closed
start_result (served err) closed = err
