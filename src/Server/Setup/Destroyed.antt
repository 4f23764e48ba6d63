-- ===== src/Server/Setup/Destroyed.antt =====
-- The end of a server that has started.
use client_server_architectu.Platform.{Platform}
use client_server_architectu.World.{World}
use client_server_architectu.Resources.{Resources, acquire, descriptor, socket_path}
use client_server_architectu.Server.Setup.{Listener, new_listener, opened}
use client_server_architectu.Prelude.{◌∷◌, ℕ, some, push_back, []}

-- The state after the setup of each socket, for a listener and the world after it.
abbrev tcp_served : ℕ → World → Listener → Listener
tcp_served fd w s = record s {
  world = w;
  tcp_fd = some fd;
  watched = push_back s.watched fd;
  resources = acquire (descriptor fd) s.resources;
}

abbrev udp_served : ℕ → World → Listener → Listener
udp_served fd w s = record s {
  world = w;
  udp_fd = some fd;
  handler_fd = some fd;
  watched = push_back s.watched fd;
  resources = acquire (descriptor fd) s.resources;
}

abbrev unix_served : ℕ → World → Listener → Listener
unix_served fd w s = record s {
  world = w;
  unix_fd = some fd;
  watched = push_back s.watched fd;
  resources = acquire socket_path (acquire (descriptor fd) s.resources);
}

abbrev polled : ℕ → World → Listener
polled e w = record (opened e (new_listener w)) { epoll_fd = some e }

-- The state of a server that has started, by its descriptors.
abbrev started : World → ℕ → ℕ → ℕ → ℕ → Listener
started w e t u x = record {
  world = w;
  epoll_fd = some e;
  tcp_fd = some t;
  udp_fd = some u;
  unix_fd = some x;
  handler_fd = some u;
  watched = t ∷ u ∷ x ∷ [];
  resources = record {
    held = socket_path ∷ descriptor x ∷ descriptor u ∷ descriptor t ∷ descriptor e ∷ [];
    misuses = 0;
  };
}
