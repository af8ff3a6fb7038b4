-- ===== src/Workers/OperatorHandler/Offers.antt =====
-- What a worker offers, and what a query handler then assigns to it.
use chapterhouse_qe.External.{External}
use chapterhouse_qe.Messages.Message.{Message}
