-- ===== src/Driver/Sends.antt =====
-- tcp/main-replication-protocols.cpp: what the main loop broadcasts.
use optimistic_replication.Call.{Call}
use optimistic_replication.UseCase.{UseCase}
use optimistic_replication.Driver.{Driver}
