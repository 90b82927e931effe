-- ===== src/Errors.antt =====
-- include/durastash/errors.h: the exception classes and their messages.
use durastash.Prelude.{◌++◌, Bytes, codes}

-- A constructor for each class, with the argument of its constructor. The last one stands for what
-- the JSON library throws, which is no class of the repository.
pub data Exception : Type 0 where
  dura_stash storage_initialization session_initialization batch : Bytes → Exception
  batch_already_loaded batch_not_found corrupted_batch session_timeout : Bytes → Exception
  json_error : Exception

-- The message that a base class is given.
unfoldable pub batch_message : Bytes → Bytes
batch_message message = codes "Batch operation failed: " ++ message

-- `what()`; the message of a foreign exception is not known.
unfoldable pub what : Exception → Bytes
unfolding batch_message
what (dura_stash message) = message
what (storage_initialization message) = codes "Storage initialization failed: " ++ message
what (session_initialization message) = codes "Session initialization failed: " ++ message
what (batch message) = batch_message message
what (batch_already_loaded id) = batch_message (codes "Batch already loaded: " ++ id)
what (batch_not_found id) = batch_message (codes "Batch not found: " ++ id)
what (corrupted_batch id) = batch_message (codes "Corrupted batch data: " ++ id)
what (session_timeout id) = codes "Session timeout: " ++ id
what json_error = codes ""
