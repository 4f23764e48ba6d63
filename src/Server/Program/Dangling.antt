-- ===== src/Server/Program/Dangling.antt =====
-- The end of the server's program.
use client_server_architectu.World.{Config}
use client_server_architectu.Platform.{Platform}
