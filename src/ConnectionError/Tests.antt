-- ===== src/ConnectionError/Tests.antt =====
-- Tests of the errors of a connection.
use wtransport.Prelude.{◌∷◌, [], arith, some}
use wtransport.Worker.{remote_closed}
use wtransport.ConnectionError.{application_closed, close_worker_error}
use wtransport.ConnectionError.Laws.{Closes, close_worker_error-Closes}

close_worker_error-Closes_example :
    Closes remote_closed (close_worker_error remote_closed (some (application_closed 7 (1 ∷ []))))
close_worker_error-Closes_example =
    close_worker_error-Closes remote_closed (some (application_closed 7 (1 ∷ []))) (omega arith)
